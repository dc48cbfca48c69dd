-- ===== src/Publisher/Compression.antt =====
-- internal/services/publisher/compression.go: the choice of a compressor, and the test by size.
use pub_sub_go.Base.{ℕ, String, Bool, not, ◌&&◌, List, length, ltb, ◌==◌, if◌then◌else◌}
use pub_sub_go.Base.Int.{ℤ}
use pub_sub_go.Result.{Result, ok}

-- The libraries of the three formats.
pub record Codecs : Type 0 where
  pub snappy_encode : List ℕ → List ℕ
  pub snappy_decode : List ℕ → Result (List ℕ)
  pub gzip_compress : ℤ → List ℕ → Result (List ℕ)
  pub gzip_decompress : List ℕ → Result (List ℕ)
  pub lz4_compress : List ℕ → Result (List ℕ)
  pub lz4_decompress : List ℕ → Result (List ℕ)

pub record Compressor : Type 0 where
  pub compress : List ℕ → Result (List ℕ)
  pub decompress : List ℕ → Result (List ℕ)
  pub name : String

unfoldable pub noop_compressor : Compressor
noop_compressor = record { compress = ok; decompress = ok; name = "none" }

-- Any other type, the empty one included, does not compress.
unfoldable pub new_compressor : Codecs → String → ℤ → Compressor
unfolding noop_compressor
new_compressor c compression_type level =
    if compression_type == "snappy"
    then record {
      compress = λ bytes. ok (c.snappy_encode bytes);
      decompress = c.snappy_decode;
      name = "snappy";
    }
    else if compression_type == "gzip"
    then record { compress = c.gzip_compress level; decompress = c.gzip_decompress; name = "gzip" }
    else if compression_type == "lz4"
    then record { compress = c.lz4_compress; decompress = c.lz4_decompress; name = "lz4" }
    else noop_compressor

-- `shouldCompress` of publisher.go
unfoldable pub should_compress : String → List ℕ → Bool
should_compress compression_type payload =
    not (compression_type == "none") && ltb 1024 (length payload)
