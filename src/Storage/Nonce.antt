-- ===== src/Storage/Nonce.antt =====
-- core/src/extensions/storage/nonce.rs. An instant is a number of nanoseconds of the monotonic clock,
-- and each reading of it is an argument, as is the fresh uuid that names a nonce.
use root_cx.Prelude.{
  ℕ, ◌+◌, ◌*◌, ◌^◌, Bool, true, false, Option, none, some, List, [], ◌∷◌, Text, ltb, if◌then◌else◌,
}
use root_cx.Prelude.Maps.{Map, empty, insert, remove, retain}
pub mod Lifetime

abbrev pub seconds : ℕ → ℕ
seconds n = n * 10 ^ 9

abbrev pub nonce_ttl : ℕ
nonce_ttl = seconds 60

abbrev pub download_nonce_ttl : ℕ
download_nonce_ttl = seconds 300

pub record UploadNonce : Type 0 where
  pub app_id : Text
  pub name : Text
  pub content_type : Text
  pub max_size : ℕ
  pub expires_at : ℕ

-- A `Uuid` is a number of 128 bits.
pub record DownloadNonce : Type 0 where
  pub file_id : ℕ
  pub app_id : Text
  pub expires_at : ℕ

pub record NonceStore : Type 0 where
  pub nonces : Map UploadNonce
  pub download_nonces : Map DownloadNonce

-- `NonceStore::default`
abbrev pub default : NonceStore
default = record { nonces = empty; download_nonces = empty }

unfoldable pub cleanup_expired : ℕ → NonceStore → NonceStore
cleanup_expired now store = record {
  nonces = retain (λ v. ltb now v.expires_at) store.nonces;
  download_nonces = retain (λ v. ltb now v.expires_at) store.download_nonces;
}

-- `create`, with the clock at the cleanup and at the insertion.
unfoldable pub create : ℕ → ℕ → Text → Text → Text → Text → ℕ → NonceStore → NonceStore
create swept now nonce app_id name content_type max_size store =
    let cleaned = cleanup_expired swept store in
    record cleaned {
      nonces =
          insert nonce
            (record {
              app_id = app_id;
              name = name;
              content_type = content_type;
              max_size = max_size;
              expires_at = now + nonce_ttl;
            })
            cleaned.nonces;
    }

-- The entry, unless it has expired.
abbrev pub unexpired {ℓ} : {V : Type ℓ} → (V → ℕ) → ℕ → Option V → Option V
unexpired expiry now none = none
unexpired expiry now (some entry) = if ltb (expiry entry) now then none else some entry

unfoldable pub consume : ℕ → Text → NonceStore → Option UploadNonce × NonceStore
consume now nonce store = (
  unexpired (λ v. v.expires_at) now (store.nonces nonce),
  record store { nonces = remove nonce store.nonces },
)

unfoldable pub create_download : ℕ → ℕ → Text → ℕ → Text → NonceStore → NonceStore
create_download swept now nonce file_id app_id store =
    let cleaned = cleanup_expired swept store in
    record cleaned {
      download_nonces =
          insert nonce
            (record { file_id = file_id; app_id = app_id; expires_at = now + download_nonce_ttl })
            cleaned.download_nonces;
    }

unfoldable pub consume_download : ℕ → Text → NonceStore → Option DownloadNonce × NonceStore
consume_download now nonce store = (
  unexpired (λ v. v.expires_at) now (store.download_nonces nonce),
  record store { download_nonces = remove nonce store.download_nonces },
)
