-- ===== src/KeyManager/Rotation.antt =====
-- RotateKEK of internal/keymanager/local.go, and its effect on keys that are in memory.
use agent_transponder.Prelude.{
  String, ◌≡◌, refl, sym, ◌∙◌, Bool, true, Option, none, some, [], ◌∷◌, ◌++◌, arith, length,
  length-append, take-length_append, drop-length_append,
}
use agent_transponder.Prelude.Maps.{Map}
use agent_transponder.KeyManager.{
  Bytes, Cipher, Dek, LocalManager, KeyError, random_key, rotation_unwrap, rotation_wrap, aes_key,
  stored_list, save_store, wrap_key, unwrap_key,
}

module _ (cipher : Cipher) where
  open cipher use {nonce_size, seal, open_box}

  -- The KEK and the DEKs that the loop leaves, and its error.
  pub record Rotated : Type 0 where
    pub kek : Bytes
    pub deks : Map Dek
    pub failed : Option KeyError

  -- The raw key of a DEK: in memory, or unwrapped with the KEK that the manager has at that point.
  unfoldable pub raw_key : Bytes → Dek → Option Bytes
  raw_key current dek = elim dek.key [
    | some raw ↦ some raw
    | none ↦ unwrap_key cipher current dek.wrapped_key
  ]

  rewrap : Bytes → String → Dek → Map Dek → Option Bytes → Rotated → Rotated
  rewrap old bucket dek rest none after = record {
    kek = old;
    deks = (bucket, dek) ∷ rest;
    failed = some (rotation_wrap bucket);
  }
  rewrap old bucket dek rest (some wrapped) after = record after {
    deks = (bucket, record dek { wrapped_key = wrapped }) ∷ after.deks;
  }

  -- One round: `after` is what the later rounds do.
  rotate_one :
      Bytes
      → Bytes
      → (String → Option Bytes)
      → Bytes
      → String
      → Dek
      → Map Dek
      → Option Bytes
      → Rotated
      → Rotated
  unfolding rewrap
  rotate_one old new nonces current bucket dek rest none after = record {
    kek = current;
    deks = (bucket, dek) ∷ rest;
    failed = some (rotation_unwrap bucket);
  }
  rotate_one old new nonces current bucket dek rest (some raw) after =
      rewrap old bucket (record dek { key = some raw }) rest
        (wrap_key cipher new (nonces bucket) raw) after

  -- The loop over the DEKs. `m.kek` is `current`: the old KEK in the first round and the new one,
  -- which the round before has set, in every later one.
  unfoldable pub rotate_loop : Bytes → Bytes → (String → Option Bytes) → Bytes → Map Dek → Rotated
  unfolding rotate_one
  rotate_loop old new nonces current [] = record { kek = current; deks = []; failed = none }
  rotate_loop old new nonces current ((bucket, dek) ∷ rest) =
      rotate_one old new nonces current bucket dek rest (raw_key current dek)
        (rotate_loop old new nonces new rest)

  finish : Bool → Bytes → LocalManager → Rotated → Option KeyError → LocalManager × Option KeyError
  finish written new m r (some e) = (record m { kek = r.kek; deks = r.deks }, some e)
  finish written new m r none = save_store written (record m { kek = new; deks = r.deks })

  unfoldable pub rotate_kek :
      Bool → Option Bytes → (String → Option Bytes) → LocalManager → LocalManager × Option KeyError
  unfolding finish
  rotate_kek written none nonces m = (m, some random_key)
  rotate_kek written (some new) nonces m =
      let r = rotate_loop m.kek new nonces m.kek m.deks in finish written new m r r.failed

  -- AES-GCM: what was sealed is opened again with the same key and nonce.
  abbrev pub OpensSealed : Type 0
  OpensSealed =
      (key nonce plaintext : Bytes) → open_box key nonce (seal key nonce plaintext) ≡ some plaintext

  -- The random source gives each bucket a nonce.
  abbrev pub HasNonces : (String → Option Bytes) → Type 0
  HasNonces nonces =
      (bucket : String) → (n : Bytes) × (nonces bucket ≡ some n) × (length n ≡ nonce_size)

  pub unwrap-wrap :
      (kek n raw : Bytes)
      → aes_key kek ≡ true
      → length n ≡ nonce_size
      → OpensSealed
      → (w : Bytes) × (wrap_key cipher kek (some n) raw ≡ some w)
        × (unwrap_key cipher kek w ≡ some raw)
  unfolding wrap_key unwrap_key
  unwrap-wrap kek n raw valid size opens = (
    n ++ seal kek n raw,
    ground arith,
    ground (
      arith,
      opens kek n raw,
      length-append n (seal kek n raw),
      take-length_append n (seal kek n raw),
      drop-length_append n (seal kek n raw),
    ),
  )

  -- Every DEK has its raw key in memory.
  abbrev pub InMemory : Map Dek → Type 0
  InMemory [] = Unit
  InMemory ((bucket, dek) ∷ deks) = ((raw : Bytes) × (dek.key ≡ some raw)) × InMemory deks

  -- The same DEKs with the same raw keys, each now wrapped by `kek`.
  abbrev pub Rewrapped : Bytes → Map Dek → Map Dek → Type 0
  Rewrapped kek [] [] = Unit
  Rewrapped kek [] (x ∷ xs) = ⊥
  Rewrapped kek (x ∷ xs) [] = ⊥
  Rewrapped kek ((bucket, dek) ∷ deks) ((bucket', dek') ∷ deks') =
      (bucket' ≡ bucket)
      × (dek'.id ≡ dek.id)
      × (dek'.bucket_id ≡ dek.bucket_id)
      × (dek'.key ≡ dek.key)
      × (unwrap_key cipher kek dek'.wrapped_key ≡ dek.key)
      × Rewrapped kek deks deks'

  module _ (opens : OpensSealed) (new : Bytes) (valid : aes_key new ≡ true)
      (nonces : String → Option Bytes) (enough : HasNonces nonces) where
    pub rotate_loop-step :
        (old current : Bytes) (bucket : String) (dek : Dek) (deks : Map Dek) (raw n w : Bytes)
        → dek.key ≡ some raw
        → nonces bucket ≡ some n
        → wrap_key cipher new (some n) raw ≡ some w
        → rotate_loop old new nonces current ((bucket, dek) ∷ deks) ≡ (
            let after = rotate_loop old new nonces new deks in
            record after {
              deks = (bucket, record dek { key = some raw; wrapped_key = w }) ∷ after.deks;
            })
    unfolding rotate_loop raw_key
    rotate_loop-step old current bucket dek deks raw n w held drawn wraps = ground arith

    pub rotate_loop-Rewrapped :
        (old current : Bytes) (deks : Map Dek)
        → InMemory deks
        → ((rotate_loop old new nonces current deks).failed ≡ none)
          × Rewrapped new deks (rotate_loop old new nonces current deks).deks
    unfolding rotate_loop raw_key
    rotate_loop-Rewrapped old current [] h = (refl, tt)
    rotate_loop-Rewrapped old current ((bucket, dek) ∷ deks) ((raw, held), h) =
        let ih = rotate_loop-Rewrapped old new deks h in
        let (n, drawn, size) = enough bucket in
        let (w, wraps, unwraps) = unwrap-wrap new n raw valid size opens in
        rw (rotate_loop-step old current bucket dek deks raw n w held drawn wraps)
          (ih.0, (refl, refl, refl, sym held, unwraps ∙ sym held, ih.1))

    -- With every key in memory, a nonce for each bucket and a new KEK that AES takes, RotateKEK
    -- succeeds if it can replace the file: the new KEK is in place, each DEK has the identity and
    -- raw key that it had and is wrapped by the new KEK, and the file holds these DEKs.
    pub rotate_kek-Rewrapped :
        (m : LocalManager)
        → InMemory m.deks
        → let (m', failed) = rotate_kek true (some new) nonces m in
          (failed ≡ none)
          × (m'.kek ≡ new)
          × Rewrapped new m.deks m'.deks
          × (m'.store ≡ some (stored_list m'.deks))
    unfolding rotate_kek save_store
    rotate_kek-Rewrapped m held =
        let (done, wrapped) = rotate_loop-Rewrapped m.kek m.kek m.deks held in
        rw (done, rotate_kek) (refl, refl, wrapped, refl)
