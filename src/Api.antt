-- ===== src/Api.antt =====
-- api/ and tokens/: the requests that a client with a token, or with a signing key, can make.
pub mod Cors
pub mod CorsLaws
pub mod Status
pub mod Tokens
pub mod TokenLaws
pub mod Nonces
pub mod Challenge
pub mod ChallengeLaws
pub mod ProofSig
pub mod RateLimit
pub mod ClientChallenge
pub mod Delete
pub mod DeleteLaws
pub mod DeleteReplay
pub mod Download
pub mod Upload
pub mod OwnershipLaws
pub mod UploadLaws
pub mod Chunked
pub mod ChunkedLaws
pub mod FinalizeLaws
pub mod Replicate
