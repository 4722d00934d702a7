-- ===== src/KeyManager/Loss.antt =====
-- RotateKEK of internal/keymanager/local.go on keys that are not in memory, and a restart after it.
use agent_transponder.Prelude.{
  String, ◌≡◌, ◌≢◌, refl, sym, ◌∙◌, ap, subst, Bool, true, Bool-cases, inl, inr, Option, none, some,
  [], ◌∷◌, ◌++◌, arith, length, ◌==◌, eq_iff, eq_refl, take-length_append, drop-length_append,
}
use mathlib.Core.Option
use agent_transponder.Prelude.Maps.{Map, lookup}
use agent_transponder.Prelude.Result.{ok, err}
use agent_transponder.KeyManager.{
  Bytes, Cipher, Dek, LocalManager, unwrap_dek, rotation_unwrap, aes_key, save_store,
  new_local_manager, wrap_key, unwrap_key, get_dek,
}
use agent_transponder.KeyManager.Rotation.{
  raw_key, rotate_loop, rotate_kek, OpensSealed, HasNonces, InMemory, Rewrapped, rotate_loop-step,
  rotate_loop-Rewrapped, rotate_kek-Rewrapped,
}
use agent_transponder.KeyManager.Roundtrip.{IsKeyed, reloaded, restart-lookup}

module _ (cipher : Cipher) where
  open cipher use {nonce_size, seal, open_box}

  -- AES-GCM authenticates: what was sealed with one key is not opened with another.
  abbrev pub OpensOwnOnly : Type 0
  OpensOwnOnly =
      (key other nonce plaintext : Bytes)
      → other ≢ key
      → open_box other nonce (seal key nonce plaintext) ≡ none

  -- The DEK's wrapped key was made with this KEK.
  pub record WrappedBy (kek : Bytes) (dek : Dek) : Type 0 where
    pub nonce : Bytes
    pub raw : Bytes
    pub size : length nonce ≡ nonce_size
    pub wrapped : dek.wrapped_key ≡ nonce ++ seal kek nonce raw

  unwrap-other :
      (kek other : Bytes) (dek : Dek)
      → OpensOwnOnly
      → WrappedBy kek dek
      → other ≢ kek
      → unwrap_key cipher other dek.wrapped_key ≡ none
  unfolding unwrap_key
  unwrap-other kek other dek own w ne =
      let opened = own kek other w.nonce w.raw ne in
      rw w.wrapped (
        ground (
          arith,
          opened,
          w.size,
          take-length_append w.nonce (seal kek w.nonce w.raw),
          drop-length_append w.nonce (seal kek w.nonce w.raw),
        ))

  second_round_fails :
      (old new raw n : Bytes) (nonces : String → Option Bytes) (b₁ b₂ : String) (d₁ d₂ : Dek)
      (rest : Map Dek)
      → d₁.key ≡ none
      → d₂.key ≡ none
      → unwrap_key cipher old d₁.wrapped_key ≡ some raw
      → unwrap_key cipher new d₂.wrapped_key ≡ none
      → aes_key new ≡ true
      → nonces b₁ ≡ some n
      → rotate_loop cipher old new nonces old ((b₁, d₁) ∷ (b₂, d₂) ∷ rest) ≡ record {
        kek = new;
        deks =
            (b₁, record d₁ { key = some raw; wrapped_key = n ++ seal new n raw }) ∷ (b₂, d₂) ∷ rest;
        failed = some (rotation_unwrap b₂);
      }
  unfolding rotate_loop raw_key wrap_key
  second_round_fails old new raw n nonces b₁ b₂ d₁ d₂ rest k₁ k₂ first lost valid drawn =
      ground arith

  get_dek-unwrap_fails :
      (m : LocalManager) (bucket : String) (dek : Dek)
      → lookup bucket m.deks ≡ some dek
      → dek.key ≡ none
      → unwrap_key cipher m.kek dek.wrapped_key ≡ none
      → (get_dek cipher bucket m).1 ≡ err unwrap_dek
  unfolding get_dek
  get_dek-unwrap_fails m bucket dek found key lost = ground arith

  second_of_two :
      (b₁ b₂ : String) (d₁ d₂ : Dek) (rest : Map Dek)
      → b₁ ≢ b₂
      → lookup b₂ ((b₁, d₁) ∷ (b₂, d₂) ∷ rest) ≡ some d₂
  unfolding lookup
  second_of_two b₁ b₂ d₁ d₂ rest ne = ground (arith, eq_iff b₂ b₁, eq_refl b₂)

  -- Two DEKs or more were loaded from the file and not read since: RotateKEK re-wraps the first,
  -- then tries to unwrap the second with the new KEK and fails. The manager is left with the new
  -- KEK, under which the second DEK can no longer be unwrapped.
  pub rotate_kek_loses :
      OpensOwnOnly
      → (m : LocalManager) (b₁ b₂ : String) (d₁ d₂ : Dek) (rest : Map Dek) (new raw n : Bytes)
        (nonces : String → Option Bytes) (written : Bool)
      → m.deks ≡ (b₁, d₁) ∷ (b₂, d₂) ∷ rest
      → b₁ ≢ b₂
      → d₁.key ≡ none
      → d₂.key ≡ none
      → unwrap_key cipher m.kek d₁.wrapped_key ≡ some raw
      → WrappedBy m.kek d₂
      → new ≢ m.kek
      → aes_key new ≡ true
      → nonces b₁ ≡ some n
      → let (m', failed) = rotate_kek cipher written (some new) nonces m in
        (failed ≡ some (rotation_unwrap b₂))
        × (m'.kek ≡ new)
        × ((get_dek cipher b₂ m').1 ≡ err unwrap_dek)
  unfolding rotate_kek
  rotate_kek_loses own m b₁ b₂ d₁ d₂ rest new raw n nonces written two ne k₁ k₂ first second differ
        valid drawn =
      let lost = unwrap-other m.kek new d₂ own second differ in
      let fails =
        ap (rotate_loop cipher m.kek new nonces m.kek) two
        ∙ second_round_fails m.kek new raw n nonces b₁ b₂ d₁ d₂ rest k₁ k₂ first lost valid drawn in
      rw (fails, rotate_kek)
        (refl, refl, get_dek-unwrap_fails _ b₂ d₂ (second_of_two b₁ b₂ _ d₂ rest ne) k₂ lost)

  wrapped_with :
      (new n raw : Bytes)
      → aes_key new ≡ true
      → wrap_key cipher new (some n) raw ≡ some (n ++ seal new n raw)
  unfolding wrap_key
  wrapped_with new n raw valid = ground arith

  -- No DEK can be unwrapped by this KEK.
  abbrev AllLost : Bytes → Map Dek → Type 0
  AllLost kek [] = Unit
  AllLost kek ((bucket, dek) ∷ deks) =
      (unwrap_key cipher kek dek.wrapped_key ≡ none) × AllLost kek deks

  lookup-AllLost :
      (kek : Bytes) (bucket : String) (deks : Map Dek) (dek : Dek)
      → AllLost kek deks
      → lookup bucket deks ≡ some dek
      → unwrap_key cipher kek dek.wrapped_key ≡ none
  unfolding lookup
  lookup-AllLost kek bucket [] dek lost found = cc
  lookup-AllLost kek bucket ((b, d) ∷ deks) dek lost found = elim (Bool-cases (bucket == b)) [
    | inl here ↦ ground arith
    | inr there ↦ lookup-AllLost kek bucket deks dek lost.1 (ground arith)
  ]

  module _ (opens : OpensSealed cipher) (own : OpensOwnOnly) (new : Bytes)
      (valid : aes_key new ≡ true) (nonces : String → Option Bytes)
      (enough : HasNonces cipher nonces) where
    rotate_loop-AllLost :
        (old current : Bytes) (deks : Map Dek)
        → old ≢ new
        → InMemory cipher deks
        → AllLost old (rotate_loop cipher old new nonces current deks).deks
    unfolding rotate_loop
    rotate_loop-AllLost old current [] ne h = tt
    rotate_loop-AllLost old current ((bucket, dek) ∷ deks) ne ((raw, held), h) =
        let (n, drawn, size) = enough bucket in
        let dek' : Dek = record dek { key = some raw; wrapped_key = n ++ seal new n raw } in
        let own_wrap : WrappedBy new dek' = record {
          nonce = n;
          raw = raw;
          size = size;
          wrapped = refl;
        } in
        rw
          (rotate_loop-step cipher opens new valid nonces enough old current bucket dek deks raw n
            (n ++ seal new n raw) held drawn (wrapped_with new n raw valid))
          (unwrap-other new old dek' own own_wrap ne, rotate_loop-AllLost old new deks ne h)

    Rewrapped-lookup :
        (kek : Bytes) (deks deks' : Map Dek) (bucket : String)
        → Rewrapped cipher kek deks deks'
        → (lookup bucket deks ≡ none → lookup bucket deks' ≡ none)
          × ((dek : Dek)
              → lookup bucket deks ≡ some dek
              → (dek' : Dek) × (lookup bucket deks' ≡ some dek'))
    unfolding lookup
    Rewrapped-lookup kek [] [] bucket r = (λ e. refl, λ dek e. cc)
    Rewrapped-lookup kek [] (x ∷ xs) bucket r = absurd r
    Rewrapped-lookup kek (x ∷ xs) [] bucket r = absurd r
    Rewrapped-lookup kek ((b, d) ∷ deks) ((b', d') ∷ deks') bucket (same, _, _, _, _, r) =
        let ih = Rewrapped-lookup kek deks deks' bucket r in
        elim (Bool-cases (bucket == b)) [
          | inl here ↦ (λ e. ground arith, λ dek e. (d', ground arith))
          | inr there ↦ (
            λ e. ground (arith, ih.0 (ground arith)),
            λ dek e. let (x, found) = ih.1 dek (ground arith) in (x, ground arith),
          )
        ]

    Rewrapped-IsKeyed :
        (kek : Bytes) (deks deks' : Map Dek)
        → Rewrapped cipher kek deks deks'
        → IsKeyed deks
        → IsKeyed deks'
    Rewrapped-IsKeyed kek [] [] r k = tt
    Rewrapped-IsKeyed kek [] (x ∷ xs) r k = absurd r
    Rewrapped-IsKeyed kek (x ∷ xs) [] r k = absurd r
    Rewrapped-IsKeyed kek ((b, d) ∷ deks) ((b', d') ∷ deks') (same, _, bucket, _, _, r)
          (k, once, ks) =
        (
          bucket ∙ k ∙ sym same,
          subst (λ (x : String). lookup x deks' ≡ none) (sym same)
              ((Rewrapped-lookup kek deks deks' b r).0 once),
          Rewrapped-IsKeyed kek deks deks' r ks,
        )

    abbrev rotated : LocalManager → LocalManager
    rotated m = (rotate_kek cipher true (some new) nonces m).0

    rotated_deks :
        (m : LocalManager)
        → InMemory cipher m.deks
        → (rotated m).deks ≡ (rotate_loop cipher m.kek new nonces m.kek m.deks).deks
    unfolding rotate_kek save_store
    rotated_deks m held = ground (
      arith,
      (rotate_loop-Rewrapped cipher opens new valid nonces enough m.kek m.kek m.deks held).0,
    )

    rotated-AllLost :
        (m : LocalManager) → m.kek ≢ new → InMemory cipher m.deks → AllLost m.kek (rotated m).deks
    rotated-AllLost m ne held =
        subst (AllLost m.kek) (sym (rotated_deks m held))
          (rotate_loop-AllLost m.kek m.kek m.deks ne held)

    -- A rotation that succeeds keeps the new KEK in memory only. After a restart, for which the
    -- configured KEK is still the old one, not one DEK of the file can be unwrapped.
    pub rotate-restart_loses :
        (m m' : LocalManager) (bucket : String) (dek : Dek)
        → m.kek ≢ new
        → InMemory cipher m.deks
        → IsKeyed m.deks
        → lookup bucket m.deks ≡ some dek
        → new_local_manager m.kek (rotate_kek cipher true (some new) nonces m).0.store ≡ ok m'
        → (get_dek cipher bucket m').1 ≡ err unwrap_dek
    rotate-restart_loses m m' bucket dek ne held keyed found made =
        let (_, _, rewrapped, stored) =
          rotate_kek-Rewrapped cipher opens new valid nonces enough m held in
        let (dek', kept) =
          (Rewrapped-lookup new m.deks (rotated m).deks bucket rewrapped).1 dek found in
        let (same_kek, restarted) =
          restart-lookup m.kek (rotated m).deks m' bucket
            (Rewrapped-IsKeyed new m.deks (rotated m).deks rewrapped keyed)
            (subst (λ s. new_local_manager m.kek s ≡ ok m') stored made) in
        let lost =
          lookup-AllLost m.kek bucket (rotated m).deks dek' (rotated-AllLost m ne held) kept in
        get_dek-unwrap_fails m' bucket (reloaded dek') (restarted ∙ ap (Option.map reloaded) kept)
          refl (ap (λ k. unwrap_key cipher k dek'.wrapped_key) same_kek ∙ lost)
