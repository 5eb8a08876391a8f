-- ===== src/Device/Cases.antt =====
-- The cases of the switches of src/tas_client/tas_device_family.h, and the name "UNKNOWN".
use tas_client_api.Prelude.{
  ℕ, ◌≡◌, refl, sym, Bool, true, false, not, ◌&&◌, ◌||◌, List, [], ◌∷◌, ◌==◌, String, if◌then◌else◌,
  inl, inr, Bool-cases, All, subst, ==_iff,
}
use Prim.Native.String
use Prim.Native.Nat.{Ordering}
use tas_client_api.Device.Family.{is_one_of, switch}

-- Is a text "UNKNOWN"?
unfoldable pub is_unknown : String → Bool
is_unknown s = elim (String.compare s "UNKNOWN") [ Ordering.eq ↦ true | _ ↦ false ]

-- Two Booleans are the same.
abbrev pub same : Bool → Bool → Bool
same true b = b
same false b = not b

pub same→eq : (a b : Bool) → same a b ≡ true → a ≡ b
same→eq true b h = sym h
same→eq false true h = h
same→eq false false h = refl

abbrev pub every {ℓ} : {A : Type ℓ} → (A → Bool) → List A → Bool
every t [] = true
every t (x ∷ xs) = t x && every t xs

pub and-fst : (a b : Bool) → (a && b) ≡ true → a ≡ true
and-fst true b h = refl
and-fst false b h = h

pub and-snd : (a b : Bool) → (a && b) ≡ true → b ≡ true
and-snd true b h = h
and-snd false b h = cc

pub or-false : (b : Bool) → (b || false) ≡ b
or-false true = refl
or-false false = refl

-- A test that succeeds at each number of a list succeeds at one that is in it.
pub every-one_of :
    (t : ℕ → Bool) (xs : List ℕ) (d : ℕ) → every t xs ≡ true → is_one_of xs d ≡ true → t d ≡ true
unfolding is_one_of
every-one_of t [] d h e = cc
every-one_of t (x ∷ xs) d h e = elim (Bool-cases (d == x)) [
  | inl q ↦ subst (λ y. t y ≡ true) (sym ((==_iff d x).0 q)) (and-fst (t x) (every t xs) h)
  | inr q ↦
      every-one_of t xs d (and-snd (t x) (every t xs) h)
        (subst (λ b. (if b then true else is_one_of xs d) ≡ true) q e)
]

pub every-All {ℓ} :
    {A : Type ℓ} (a b : A → Bool) (xs : List A)
    → every (λ x. same (a x) (b x)) xs ≡ true
    → All (λ x. a x ≡ b x) xs
every-All a b [] h = tt
every-All a b (x ∷ xs) h = (
  same→eq (a x) (b x) (and-fst (same (a x) (b x)) (every (λ y. same (a y) (b y)) xs) h),
  every-All a b xs (and-snd (same (a x) (b x)) (every (λ y. same (a y) (b y)) xs) h),
)

-- The numbers that have a name.
abbrev pub keys : {A : Type 0} → List (ℕ × A) → List ℕ
keys [] = []
keys ((x, a) ∷ cases) = x ∷ keys cases

-- Each name is another than "UNKNOWN".
abbrev pub known : ℕ × String → Bool
known c = same (is_unknown c.1) false

abbrev pub Known : List (ℕ × String) → Type 0
Known = All (λ (c : ℕ × String). is_unknown c.1 ≡ false)

-- With known names, a switch gives an unknown one exactly at the numbers without a case.
pub switch-is_unknown :
    (cases : List (ℕ × String)) (d : ℕ)
    → Known cases
    → is_unknown (switch cases "UNKNOWN" d) ≡ not (is_one_of (keys cases) d)
unfolding switch is_one_of is_unknown
switch-is_unknown [] d h = refl
switch-is_unknown ((x, a) ∷ cases) d (h, hs) = elim (Bool-cases (d == x)) [
  | inl q ↦ rw q (rw h refl)
  | inr q ↦ rw q (switch-is_unknown cases d hs)
]
