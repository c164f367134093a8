-- ===== src/Sli/Histogram/Buckets.antt =====
-- That the buckets of a histogram account for its observations.
use inference_control_plane.Prelude.{
  ℕ, Bool, if◌then◌else◌, All-mono, ◌+◌, ◌≡◌, ap, refl, sym, ◌∙◌, true, false, Option, none, some,
  List, [], ◌∷◌, map, arith, Bool-cases, inl, inr, All, subst,
}
use inference_control_plane.Prelude.Table.{Table, update, total, total-update}
use inference_control_plane.Python.{Float, of_bits, FloatOps}
use inference_control_plane.Sli.Histogram.{
  HistAcc, same_float, has_key, zeros, entry_at, new, slot, bump, add,
}

abbrev pub sum : List ℕ → ℕ
sum [] = 0
sum (n ∷ ns) = n + sum ns

-- Each bound has an entry in the dict of counts, and its entries add up to the number of observations.
abbrev pub IsValid : HistAcc → Type 0
IsValid acc =
    All (λ b. has_key b acc.counts ≡ true) acc.bounds
    × (total (λ n. n) acc.counts + acc.over ≡ acc.count)

same_float_refl : (x : Float) → same_float x x ≡ true
same_float_refl (of_bits m) = ground arith

has_key-cons :
    (b j : Float) (c : ℕ) (d : Table Float ℕ) → has_key b d ≡ true → has_key b ((j, c) ∷ d) ≡ true
has_key-cons b j c d h = ground (arith, h)

-- An update removes no key.
has_key-update :
    (b k : Float) (g : ℕ → ℕ) (d : Table Float ℕ)
    → has_key b d ≡ true
    → has_key b (update same_float k 0 g d) ≡ true
unfolding update
has_key-update b k g [] h = absurd (cc h)
has_key-update b k g ((j, c) ∷ d) h = elim (Bool-cases (same_float k j)) [
  | inl here ↦ rw here h
  | inr further ↦ rw further (elim (Bool-cases (same_float b j)) [
    | inl e ↦ rw e refl
    | inr e ↦ rw e (has_key-update b k g d (simp e at h))
  ])
]

-- What a step of `zeros` has among its keys.
key_here :
    (b : Float) (rest : Table Float ℕ) (again : Bool)
    → has_key b rest ≡ again
    → has_key b (if again then rest else (b, 0) ∷ rest) ≡ true
key_here b rest true h = h
key_here b rest false h = rw (same_float_refl b) refl

key_later :
    (b c : Float) (rest : Table Float ℕ) (again : Bool)
    → has_key c rest ≡ true
    → has_key c (if again then rest else (b, 0) ∷ rest) ≡ true
key_later b c rest true h = h
key_later b c rest false h = has_key-cons c b 0 rest h

zeros-has_key : (bounds : List Float) → All (λ b. has_key b (zeros bounds) ≡ true) bounds
zeros-has_key [] = tt
zeros-has_key (b ∷ bs) = (
  key_here b (zeros bs) (has_key b (zeros bs)) refl,
  All-mono _ _ bs (λ c h. key_later b c (zeros bs) (has_key b (zeros bs)) h) (zeros-has_key bs),
)

zeros-total : (bounds : List Float) → total (λ n. n) (zeros bounds) ≡ 0
zeros-total [] = refl
zeros-total (b ∷ bs) = elim (Bool-cases (has_key b (zeros bs))) [
  | inl again ↦ rw again (zeros-total bs)
  | inr fresh ↦ rw fresh (omega (arith, zeros-total bs))
]

bump-total :
    (o : Option Float) (d : Table Float ℕ)
    → total (λ n. n) (bump o d).0 + (bump o d).1 ≡ total (λ n. n) d + 1
unfolding bump
bump-total none d = refl
bump-total (some key) d =
    omega (arith, total-update same_float (λ n. n) 1 key 0 (λ n. n + 1) d refl (λ w. refl))

bump-has_key :
    (o : Option Float) (b : Float) (d : Table Float ℕ)
    → has_key b d ≡ true
    → has_key b (bump o d).0 ≡ true
unfolding bump
bump-has_key none b d h = h
bump-has_key (some key) b d h = has_key-update b key (λ n. n + 1) d h

module _ (f : FloatOps) where
  pub new-IsValid : (bounds : List Float) → IsValid (new f bounds)
  new-IsValid bounds = (zeros-has_key bounds, omega (arith, zeros-total bounds))

  -- Adding a value keeps an entry for each bound, and the entries of the bounds with that of the
  -- values above every bound add up to the number of values.
  pub add-IsValid : (v : Float) (acc : HistAcc) → IsValid acc → IsValid (add f v acc)
  unfolding add
  add-IsValid v acc (keys, valid) = (
    All-mono _ _ acc.bounds (λ b h. bump-has_key (slot f v acc.bounds) b acc.counts h) keys,
    omega (arith, bump-total (slot f v acc.bounds) acc.counts, valid),
  )

some-injective : (x y : Float) → some x ≡ some y → x ≡ y
some-injective x y h = cc

-- No bound occurs twice.
abbrev pub AreDistinct : List Float → Type 0
AreDistinct [] = Unit
AreDistinct (b ∷ bs) = All (λ c. same_float b c ≡ false) bs × AreDistinct bs

-- The keys of a dict are the bounds, in their order.
abbrev pub HasKeys : List Float → Table Float ℕ → Type 0
HasKeys [] [] = Unit
HasKeys (b ∷ bs) ((k, c) ∷ d) = (k ≡ b) × HasKeys bs d
HasKeys [] (_ ∷ _) = ⊥
HasKeys (_ ∷ _) [] = ⊥

same_float_sym : (x y : Float) → same_float x y ≡ false → same_float y x ≡ false
same_float_sym (of_bits m) (of_bits n) h = ground (arith, h)

has_key-other :
    (b : Float) (bs : List Float) (d : Table Float ℕ)
    → All (λ c. same_float b c ≡ false) bs
    → HasKeys bs d
    → has_key b d ≡ false
has_key-other b [] [] others keys = refl
has_key-other b (c ∷ bs) ((k, n) ∷ d) (other, others) (same, keys) =
    rw (same, other) (has_key-other b bs d others keys)
has_key-other b [] (_ ∷ _) others keys = absurd keys
has_key-other b (_ ∷ _) [] others keys = absurd keys

pub zeros-HasKeys : (bounds : List Float) → AreDistinct bounds → HasKeys bounds (zeros bounds)
zeros-HasKeys [] distinct = tt
zeros-HasKeys (b ∷ bs) (others, distinct) =
    let keys = zeros-HasKeys bs distinct in
    rw (has_key-other b bs (zeros bs) others keys) (refl, keys)

entries-other :
    (b : Float) (bs : List Float) (n : ℕ) (d : Table Float ℕ)
    → All (λ c. same_float b c ≡ false) bs
    → map (λ x. entry_at x ((b, n) ∷ d)) bs ≡ map (λ x. entry_at x d) bs
unfolding entry_at
entries-other b [] n d others = refl
entries-other b (c ∷ bs) n d (other, others) =
    rw (same_float_sym b c other) (ap (λ l. entry_at c d ∷ l) (entries-other b bs n d others))

-- The entries along distinct bounds are those of the dict.
pub entries-total :
    (bs : List Float) (d : Table Float ℕ)
    → AreDistinct bs
    → HasKeys bs d
    → sum (map (λ b. entry_at b d) bs) ≡ total (λ n. n) d
unfolding entry_at
entries-total [] [] distinct keys = refl
entries-total (b ∷ bs) ((k, n) ∷ d) (others, distinct) (same, keys) =
    let rest = entries-total bs d distinct keys in
    let skip = entries-other b bs n d others in
    subst (λ z. sum (map (λ x. entry_at x ((z, n) ∷ d)) (b ∷ bs)) ≡ n + total (λ m. m) d) (sym same)
      (rw (same_float_refl b) (omega (arith, rest, ap sum skip)))
entries-total [] (_ ∷ _) distinct keys = absurd keys
entries-total (_ ∷ _) [] distinct keys = absurd keys

-- The slot of a value is one of the bounds.
slot-All :
    (f : FloatOps) (P : Float → Type 0) (v key : Float) (bs : List Float)
    → All P bs
    → slot f v bs ≡ some key
    → P key
unfolding slot
slot-All f P v key [] h q = absurd (cc q)
slot-All f P v key (b ∷ bs) (p, h) q = elim (Bool-cases (f.le v b)) [
  | inl e ↦ subst P (some-injective b key (simp e at q)) p
  | inr e ↦ slot-All f P v key bs h (simp e at q)
]

update-HasKeys :
    (f : FloatOps) (v key : Float) (bs : List Float) (d : Table Float ℕ)
    → AreDistinct bs
    → HasKeys bs d
    → slot f v bs ≡ some key
    → HasKeys bs (update same_float key 0 (λ n. n + 1) d)
unfolding slot update
update-HasKeys f v key [] [] distinct keys q = absurd (cc q)
update-HasKeys f v key [] (_ ∷ _) distinct keys q = absurd keys
update-HasKeys f v key (_ ∷ _) [] distinct keys q = absurd keys
update-HasKeys f v key (b ∷ bs) ((k, c) ∷ d) (others, distinct) (same, keys) q =
    elim (Bool-cases (f.le v b)) [
      | inl e ↦
          let found : same_float key k ≡ true =
            subst (λ z. same_float z k ≡ true) (same ∙ some-injective b key (simp e at q))
              (same_float_refl k) in
          rw found (same, keys)
      | inr e ↦
          let later : slot f v bs ≡ some key = simp e at q in
          let other : same_float key k ≡ false =
            subst (λ z. same_float key z ≡ false) (sym same)
              (same_float_sym b key
                (slot-All f (λ z. same_float b z ≡ false) v key bs others later)) in
          rw other (same, update-HasKeys f v key bs d distinct keys later)
    ]

bump-HasKeys :
    (f : FloatOps) (v : Float) (bs : List Float) (d : Table Float ℕ) (o : Option Float)
    → AreDistinct bs
    → HasKeys bs d
    → slot f v bs ≡ o
    → HasKeys bs (bump o d).0
unfolding bump
bump-HasKeys f v bs d none distinct keys found = keys
bump-HasKeys f v bs d (some key) distinct keys found =
    update-HasKeys f v key bs d distinct keys found

-- With distinct bounds, adding a value keeps the bounds as the keys.
pub add-HasKeys :
    (f : FloatOps) (v : Float) (acc : HistAcc)
    → AreDistinct acc.bounds
    → HasKeys acc.bounds acc.counts
    → HasKeys acc.bounds (add f v acc).counts
unfolding add
add-HasKeys f v acc distinct keys =
    bump-HasKeys f v acc.bounds acc.counts (slot f v acc.bounds) distinct keys refl
