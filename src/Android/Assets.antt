-- ===== src/Android/Assets.antt =====
-- bare_kit__on_read_resource of src/android/resources.c: how a resource is read from the assets of
-- the application. The asset manager of Android is a parameter, with what it documents.
mod Tests
use bare_kit.Prelude.{
  ℕ, zero, suc, ◌+◌, ◌-◌, ◌≤◌, ◌<◌, ◌≡◌, refl, sym, ap, ◌∙◌, List, [], ◌∷◌, ◌++◌, append-nil,
  append_assoc, Bool, true, false, Option, none, some, arith, if◌then◌else◌, ltb, length,
  length-append, Bool-cases, inl, inr,
}
use Prim.Native.String.{String}

-- The functions called, on a state of the manager and an asset that is open. A read gives the bytes
-- it put in the buffer, and `none` for an error.
pub record Assets (S A : Type 0) : Type 0 where
  pub open_asset : String → S → Option A × S
  pub get_length : A → ℕ
  pub read_some : ℕ → A → Option (List ℕ × A)
  pub close_asset : A → S → S

-- `get_length` is the total size of an asset, which reads leave as it is; an asset just opened has
-- all of it still to be read. A read gives the next bytes in the order they have, some at each until
-- all are read; and an asset that is closed is open no more.
pub record IsAssets {S A : Type 0} (m : Assets S A) (rest : A → List ℕ) (live : S → ℕ)
    : Type 0 where
  pub read_lem :
      (k : ℕ) (a : A)
      → 0 < k
      → 0 < length (rest a)
      → (chunk : List ℕ) × (a' : A) × (m.read_some k a ≡ some (chunk, a'))
        × (0 < length chunk)
        × (length chunk ≤ k)
        × (rest a ≡ chunk ++ rest a')
        × (m.get_length a' ≡ m.get_length a)
  pub open_lem :
      (name : String) (a : A) (s s' : S)
      → m.open_asset name s ≡ (some a, s')
      → (m.get_length a ≡ length (rest a)) × (live s' ≡ live s + 1)
  pub missing_lem : (name : String) (s s' : S) → m.open_asset name s ≡ (none, s') → live s' ≡ live s
  pub close_lem : (a : A) (s : S) → 0 < live s → live (m.close_asset a s) + 1 ≡ live s

module _ {S A : Type 0} (m : Assets S A) where
  -- `for (size_t read = 0; read < length;)`, with the bytes in the buffer so far. Each turn reads
  -- at least one byte, so the length of the asset is fuel enough; without, or where a read fails,
  -- the result is `none`.
  unfoldable pub read_loop : ℕ → ℕ → A → List ℕ → Option (List ℕ × A)
  read_loop zero len a bytes = if ltb (length bytes) len then none else some (bytes, a)
  read_loop (suc n) len a bytes = elim (ltb (length bytes) len) [
    | false ↦ some (bytes, a)
    | true ↦ elim (m.read_some (len - length bytes) a) [
      | none ↦ none
      | some ([], a') ↦ none
      | some (c ∷ cs, a') ↦ read_loop n len a' (bytes ++ c ∷ cs)
    ]
  ]

  abbrev pub close_read : S → Option (List ℕ × A) → Option (Option (List ℕ) × S)
  close_read s none = none
  close_read s (some (bytes, a)) = some (some bytes, m.close_asset a s)

  abbrev pub read_opened : Option A × S → Option (Option (List ℕ) × S)
  read_opened (none, s) = some (none, s)
  read_opened (some a, s) = close_read s (read_loop (m.get_length a) (m.get_length a) a [])

  -- The bytes of the resource, or `null` if there is none of that name.
  unfoldable pub on_read_resource : String → S → Option (Option (List ℕ) × S)
  on_read_resource name s = read_opened (m.open_asset name s)

module _ {S A : Type 0} (m : Assets S A) (rest : A → List ℕ) (live : S → ℕ) where
  nil_of_length : (l : List ℕ) → length l ≡ 0 → l ≡ []
  nil_of_length [] e = refl
  nil_of_length (x ∷ l) e = ground arith

  -- All is read: the loop is over.
  loop_over :
      (n len : ℕ) (a : A) (bytes : List ℕ)
      → length bytes ≡ len
      → length (rest a) ≡ 0
      → (a' : A) × (read_loop m n len a bytes ≡ some (bytes ++ rest a, a'))
  unfolding read_loop
  loop_over zero len a bytes e z =
      (a, rw (nil_of_length (rest a) z, append-nil bytes) (ground arith))
  loop_over (suc n) len a bytes e z =
      (a, rw (nil_of_length (rest a) z, append-nil bytes) (ground arith))

  -- A turn reads the next bytes, of which there are some.
  loop_turn :
      (n len : ℕ) (a a' : A) (bytes chunk : List ℕ)
      → ltb (length bytes) len ≡ true
      → m.read_some (len - length bytes) a ≡ some (chunk, a')
      → 0 < length chunk
      → read_loop m (suc n) len a bytes ≡ read_loop m n len a' (bytes ++ chunk)
  unfolding read_loop
  loop_turn n len a a' bytes [] l e h = ground arith
  loop_turn n len a a' bytes (c ∷ cs) l e h = ground (arith, e)

  read_loop-rest :
      IsAssets m rest live
      → (n len : ℕ) (a : A) (bytes : List ℕ) → length (rest a) ≤ n
      → length bytes + length (rest a) ≡ len
      → (a' : A) × (read_loop m n len a bytes ≡ some (bytes ++ rest a, a'))
  read_loop-rest laws zero len a bytes h e = loop_over zero len a bytes (omega arith) (omega arith)
  read_loop-rest laws (suc n) len a bytes h e = elim (Bool-cases (ltb (length bytes) len)) [
    | inl l ↦
        let (chunk, a', eq, some_read, most, split, size) =
          laws.read_lem (len - length bytes) a (ground arith) (ground arith) in
        let lens = ap length split ∙ length-append chunk (rest a') in
        let (last, r) =
          read_loop-rest laws n len a' (bytes ++ chunk) (omega arith)
            (omega (arith, length-append bytes chunk)) in
        (
          last,
          loop_turn n len a a' bytes chunk l eq some_read
              ∙ r
              ∙ ap (λ x. some (x, last))
                  (append_assoc bytes chunk (rest a') ∙ ap (λ x. bytes ++ x) (sym split)),
        )
    | inr l ↦ loop_over (suc n) len a bytes (ground arith) (ground arith)
  ]

  -- What a read of the resource of a name gives, from what the manager opens under it.
  abbrev pub contents_of : Option A → Option (List ℕ)
  contents_of none = none
  contents_of (some a) = some (rest a)

  -- Where the asset manager keeps to its documentation, a read of a resource comes to an end
  -- without a failed assert, gives all the bytes of the asset of that name in their order, or null
  -- if there is none, and leaves no asset open that was not.
  pub on_read_resource-contents :
      IsAssets m rest live
      → (name : String) (s : S)
      → (s' : S) × (on_read_resource m name s ≡ some (contents_of (m.open_asset name s).0, s'))
        × (live s' ≡ live s)
  unfolding on_read_resource
  on_read_resource-contents laws name s = opened (m.open_asset name s) refl
    where
      opened :
          (o : Option A × S)
          → m.open_asset name s ≡ o
          → (s' : S) × (read_opened m o ≡ some (contents_of o.0, s')) × (live s' ≡ live s)
      opened (none, s') e = (s', refl, laws.missing_lem name s s' e)
      opened (some a, s') e =
          let n = m.get_length a in
          let (total, more) = laws.open_lem name a s s' e in
          let (a', r) =
            read_loop-rest laws n n a [] (omega (arith, total)) (omega (arith, total)) in
          (
            m.close_asset a' s',
            ap (close_read m s') r,
            omega (arith, more, laws.close_lem a' s' (omega (arith, more))),
          )
