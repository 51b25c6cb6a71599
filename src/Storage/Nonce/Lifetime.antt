-- ===== src/Storage/Nonce/Lifetime.antt =====
-- core/src/extensions/storage/nonce.rs: the life of an upload nonce over any sequence of calls.
use root_cx.Prelude.{
  ℕ, ◌+◌, ◌<◌, ◌≤◌, ◌≡◌, ap, ◌∙◌, arith, false, none, some, List, [], ◌∷◌, Text, text_eq,
}
use root_cx.Prelude.Maps.{insert_here, remove_here}
use root_cx.Storage.Nonce.{
  NonceStore, UploadNonce, nonce_ttl, unexpired, cleanup_expired, create, consume, create_download,
  consume_download,
}

-- A call, with the readings of the clock that it makes.
pub data Call : Type 0 where
  creates : (swept now : ℕ) (nonce app_id name content_type : Text) (max_size : ℕ) → Call
  consumes : (now : ℕ) (nonce : Text) → Call
  creates_download : (swept now : ℕ) (nonce : Text) (file_id : ℕ) (app_id : Text) → Call
  consumes_download : (now : ℕ) (nonce : Text) → Call

abbrev pub after_call : Call → NonceStore → NonceStore
after_call (creates swept now nonce app_id name content_type max_size) store =
    create swept now nonce app_id name content_type max_size store
after_call (consumes now nonce) store = (consume now nonce store).1
after_call (creates_download swept now nonce file_id app_id) store =
    create_download swept now nonce file_id app_id store
after_call (consumes_download now nonce) store = (consume_download now nonce store).1

abbrev pub after_calls : List Call → NonceStore → NonceStore
after_calls [] store = store
after_calls (call ∷ calls) store = after_calls calls (after_call call store)

-- No upload nonce of this name is created.
abbrev pub Uncreated : Text → List Call → Type 0
Uncreated nonce [] = Unit
Uncreated nonce (creates swept now other app_id name content_type max_size ∷ calls) =
    (text_eq other nonce ≡ false) × Uncreated nonce calls
Uncreated nonce (call ∷ calls) = Uncreated nonce calls

-- No upload nonce of this name is created or consumed, and no cleanup is made at or after the deadline.
abbrev pub Untouched : Text → ℕ → List Call → Type 0
Untouched nonce deadline [] = Unit
Untouched nonce deadline (creates swept now other app_id name content_type max_size ∷ calls) =
    (text_eq other nonce ≡ false) × (swept < deadline) × Untouched nonce deadline calls
Untouched nonce deadline (consumes now other ∷ calls) =
    (text_eq other nonce ≡ false) × Untouched nonce deadline calls
Untouched nonce deadline (creates_download swept now other file_id app_id ∷ calls) =
    (swept < deadline) × Untouched nonce deadline calls
Untouched nonce deadline (consumes_download now other ∷ calls) = Untouched nonce deadline calls

absent_after :
    (nonce : Text) (calls : List Call) (store : NonceStore)
    → Uncreated nonce calls
    → store.nonces nonce ≡ none
    → (after_calls calls store).nonces nonce ≡ none
unfolding create consume create_download consume_download cleanup_expired
absent_after nonce [] store u h = h
absent_after nonce (creates swept now other app_id name content_type max_size ∷ calls) store u h =
    absent_after nonce calls _ u.1 (ground arith)
absent_after nonce (consumes now other ∷ calls) store u h =
    absent_after nonce calls _ u (ground arith)
absent_after nonce (creates_download swept now other file_id app_id ∷ calls) store u h =
    absent_after nonce calls _ u (ground arith)
absent_after nonce (consumes_download now other ∷ calls) store u h = absent_after nonce calls _ u h

present_after :
    (nonce : Text) (calls : List Call) (store : NonceStore) (entry : UploadNonce)
    → Untouched nonce entry.expires_at calls
    → store.nonces nonce ≡ some entry
    → (after_calls calls store).nonces nonce ≡ some entry
unfolding create consume create_download consume_download cleanup_expired
present_after nonce [] store entry u h = h
present_after nonce (creates swept now other app_id name content_type max_size ∷ calls) store entry
      u h =
    present_after nonce calls _ entry u.2 (ground arith)
present_after nonce (consumes now other ∷ calls) store entry u h =
    present_after nonce calls _ entry u.1 (ground arith)
present_after nonce (creates_download swept now other file_id app_id ∷ calls) store entry u h =
    present_after nonce calls _ entry u.1 (ground arith)
present_after nonce (consumes_download now other ∷ calls) store entry u h =
    present_after nonce calls _ entry u h

unexpired_lem {ℓ} :
    {V : Type ℓ} (expiry : V → ℕ) (now : ℕ) (entry : V)
    → now ≤ expiry entry
    → unexpired expiry now (some entry) ≡ some entry
unexpired_lem expiry now entry h = ground arith

-- A nonce is used once: once it is consumed, whether or not that succeeds, and whatever calls follow
-- that do not create it again, it is refused at any time.
pub consume_once :
    (store : NonceStore) (nonce : Text) (first later : ℕ) (calls : List Call)
    → Uncreated nonce calls
    → (consume later nonce (after_calls calls (consume first nonce store).1)).0 ≡ none
unfolding consume
consume_once store nonce first later calls u =
    ap (unexpired (λ v. v.expires_at) later)
      (absent_after nonce calls (consume first nonce store).1 u (remove_here nonce store.nonces))

-- A nonce is honoured until its deadline: an upload nonce created at `now` is given back with what it
-- was created with, at any time up to sixty seconds later, whatever calls come between, if none
-- of them creates or consumes that nonce and each cleanup among them is before the deadline.
pub create-consume :
    (store : NonceStore) (swept now later : ℕ) (nonce app_id name content_type : Text)
    (max_size : ℕ) (calls : List Call)
    → Untouched nonce (now + nonce_ttl) calls
    → later ≤ now + nonce_ttl
    → (consume later nonce
        (after_calls calls (create swept now nonce app_id name content_type max_size store))).0
      ≡ some (record {
        app_id = app_id;
        name = name;
        content_type = content_type;
        max_size = max_size;
        expires_at = now + nonce_ttl;
      })
unfolding consume create
create-consume store swept now later nonce app_id name content_type max_size calls u h =
    let entry : UploadNonce = record {
      app_id = app_id;
      name = name;
      content_type = content_type;
      max_size = max_size;
      expires_at = now + nonce_ttl;
    } in
    let cleaned = cleanup_expired swept store in
    let stored = insert_here nonce entry cleaned.nonces in
    let found =
      present_after nonce calls (create swept now nonce app_id name content_type max_size store)
        entry u stored in
    ap (unexpired (λ v. v.expires_at) later) found ∙ unexpired_lem (λ v. v.expires_at) later entry h

-- A nonce that is given back has not expired.
pub consume_deadline :
    (store : NonceStore) (nonce : Text) (now : ℕ) (entry : UploadNonce)
    → (consume now nonce store).0 ≡ some entry
    → now ≤ entry.expires_at
unfolding consume
consume_deadline store nonce now entry h = ground arith
