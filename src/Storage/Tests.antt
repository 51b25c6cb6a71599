-- ===== src/Storage/Tests.antt =====
-- Runs of the theorems on nonces at a concrete store.
use root_cx.Prelude.{◌+◌, ◌≡◌, refl, arith, some, none, List, [], ◌∷◌, bytes}
use root_cx.Storage.Nonce.{default, create, consume, nonce_ttl, seconds}
use root_cx.Storage.Nonce.Lifetime.{
  Call, consumes, creates_download, after_calls, create-consume, consume_once,
}

abbrev between : List Call
between =
    consumes (seconds 2) (bytes "n2")
    ∷ creates_download (seconds 3) (seconds 3) (bytes "n1") 7 (bytes "crm")
    ∷ []

create-consume_example :
    (consume (seconds 30) (bytes "n1") (
      after_calls between (
        create
          (seconds 1)
          (seconds 1)
          (bytes "n1")
          (bytes "crm")
          (bytes "a.xml")
          (bytes "text/xml")
          1024
          default))).0
    ≡ some (record {
      app_id = bytes "crm";
      name = bytes "a.xml";
      content_type = bytes "text/xml";
      max_size = 1024;
      expires_at = seconds 1 + nonce_ttl;
    })
create-consume_example =
    create-consume default (seconds 1) (seconds 1) (seconds 30) (bytes "n1") (bytes "crm")
      (bytes "a.xml") (bytes "text/xml") 1024 between (refl, (omega arith, tt)) (omega arith)

consume_once_example :
    (consume (seconds 5) (bytes "n1") (
      after_calls between
        (consume (seconds 1) (bytes "n1") (
          create
            (seconds 1)
            (seconds 1)
            (bytes "n1")
            (bytes "crm")
            (bytes "a.xml")
            (bytes "text/xml")
            1024
            default)).1)).0
    ≡ none
consume_once_example =
    consume_once
      (create (seconds 1) (seconds 1) (bytes "n1") (bytes "crm") (bytes "a.xml") (bytes "text/xml")
        1024 default)
      (bytes "n1") (seconds 1) (seconds 5) between tt
