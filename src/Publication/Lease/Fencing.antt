-- ===== src/Publication/Lease/Fencing.antt =====
-- Sequences of the lease calls of pipelines/concurrency.py, and who is verified after them.
use mathlib.Core.Path.{subst}
use ang553_latam_aie_01_fina.Common.{
  ℕ, ◌<◌, ℤ, pos, negsuc, Bool, true, false, ◌&&◌, ◌≡◌, ◌⊎◌, inl, inr, refl, sym, ap, ◌∙◌, Option,
  none, some, List, [], ◌∷◌, arith, ==_iff, opt_eq, Bool-cases, Option-cases, ltb, if◌then◌else◌,
}
use ang553_latam_aie_01_fina.Publication.Types.{WeekControl, Store, Connection}
use ang553_latam_aie_01_fina.Publication.Call.{
  Result, ok, err, Call, ◌>>=◌, week, find_control, read_control, Ensures,
}
use ang553_latam_aie_01_fina.Publication.Rules.{Reads, Ensures-read}
use ang553_latam_aie_01_fina.Publication.Lease.{
  LeaseDecision, verified, rejected, decision, lease_verified, checked_token, verify_decision,
  holds, verify_week_lease, acquire_week_lease, renew_week_lease, release_week_lease,
}
use ang553_latam_aie_01_fina.Publication.Lease.Tokens.{
  Advances, Fenced, Fenced-refl, Fenced-trans, lease_reads, acquire_week_lease-Fenced,
  verify_week_lease-Reads, renew_week_lease-Fenced, release_week_lease-Fenced,
}

-- A lease call, on a connection of its own.
pub data LeaseCall : Type 0 where
  acquire : ℕ → ℕ → ℤ → LeaseCall
  verify : ℕ → ℕ → ℤ → LeaseCall
  renew : ℕ → ℕ → ℤ → ℤ → LeaseCall
  release : ℕ → ℕ → ℤ → LeaseCall

-- The tables after a call, whether it returned or raised.
unfoldable pub perform_lease : Connection → LeaseCall → Store → Store
perform_lease c (acquire day id seconds) s = (acquire_week_lease c day id seconds s).1
perform_lease c (verify day id token) s = (verify_week_lease c day id token s).1
perform_lease c (renew day id token seconds) s = (renew_week_lease c day id token seconds s).1
perform_lease c (release day id token) s = (release_week_lease c day id token s).1

unfoldable pub replay_leases : List (Connection × LeaseCall) → Store → Store
replay_leases [] s = s
replay_leases ((c, call) ∷ rest) s = replay_leases rest (perform_lease c call s)

perform_lease-Fenced :
    (c : Connection) (call : LeaseCall) (s : Store) → Fenced s (perform_lease c call s)
unfolding perform_lease
perform_lease-Fenced c (acquire day id seconds) s = acquire_week_lease-Fenced c day id seconds s
perform_lease-Fenced c (verify day id token) s =
    rw ((verify_week_lease-Reads c day id token).at s) (Fenced-refl s)
perform_lease-Fenced c (renew day id token seconds) s =
    renew_week_lease-Fenced c day id token seconds s
perform_lease-Fenced c (release day id token) s = release_week_lease-Fenced c day id token s

pub replay_leases-Fenced :
    (calls : List (Connection × LeaseCall)) (s : Store) → Fenced s (replay_leases calls s)
unfolding replay_leases
replay_leases-Fenced [] s = Fenced-refl s
replay_leases-Fenced ((c, call) ∷ rest) s =
    Fenced-trans s (perform_lease c call s) _ (perform_lease-Fenced c call s)
      (replay_leases-Fenced rest (perform_lease c call s))

-- The answer of `verify_week_lease` is that the lease is held.
abbrev pub is_verified : Result LeaseDecision → Bool
is_verified (ok d) = lease_verified d
is_verified (err c) = false

abbrev pub verifies : Connection → ℕ → ℕ → ℤ → Store → Bool
verifies c day id token s = is_verified (verify_week_lease c day id token s).0

-- What a verified lease says of the control row.
pub record Held (day id : ℕ) (token : ℤ) (s : Store) : Type 0 where
  pub row : WeekControl
  pub found : find_control day s ≡ some row
  pub owner : row.owner_run_id ≡ some id
  pub number : pos row.fencing_token ≡ token

false-true : ¬ (false ≡ true)
false-true h = ground arith

opt_eq-some : (o : Option ℕ) (id : ℕ) → opt_eq o (some id) ≡ true → o ≡ some id
opt_eq-some none id h = ground arith
opt_eq-some (some a) id h = ap some ((==_iff a id).0 h)

and_left : (a b : Bool) → (a && b) ≡ true → a ≡ true
and_left true b h = refl
and_left false b h = h

and_right : (a b : Bool) → (a && b) ≡ true → b ≡ true
and_right true b h = h
and_right false b h = ground arith

verify_row-Held :
    (now day id n : ℕ) (k : WeekControl) (s : Store)
    → find_control day s ≡ some k
    → lease_verified (verify_decision now day id n (some k)) ≡ true
    → Held day id (pos n) s
verify_row-Held now day id n k s found h = elim (Bool-cases (holds now id n k)) [
  | inr no_hold ↦ absurd (
      false-true (
        subst (λ b. lease_verified (decision day (if b then verified else rejected) id k) ≡ true)
          no_hold h))
  | inl hold ↦ record {
    row = k;
    found = found;
    owner = opt_eq-some k.owner_run_id id (and_left _ _ (and_left _ _ hold));
    number = ap pos ((==_iff k.fencing_token n).0 (and_right _ _ (and_left _ _ hold)));
  }
]

-- The three checks of the SELECT, read off its answer.
verify_decision-Held :
    (now day id n : ℕ) (s : Store)
    → lease_verified (verify_decision now day id n (find_control day s)) ≡ true
    → Held day id (pos n) s
verify_decision-Held now day id n s h = elim (Option-cases (find_control day s)) [
  | inl absent ↦
      absurd
        (false-true (subst (λ o. lease_verified (verify_decision now day id n o) ≡ true) absent h))
  | inr (k, found) ↦
      verify_row-Held now day id n k s found
        (subst (λ o. lease_verified (verify_decision now day id n o) ≡ true) found h)
]

week-same : (day day' : ℕ) (s : Store) → week day s ≡ (ok day', s) → day' ≡ day
unfolding week
week-same day day' s h = ground arith

checked_token-same :
    (token : ℤ) (n : ℕ) (s : Store) → checked_token token s ≡ (ok n, s) → token ≡ pos n
unfolding checked_token
checked_token-same (pos m) n s h = ground arith
checked_token-same (negsuc m) n s h = absurd (ground arith)

read_control-same :
    (day : ℕ) (o : Option WeekControl) (s : Store)
    → read_control day s ≡ (ok o, s)
    → o ≡ find_control day s
unfolding read_control
read_control-same day o s h = ground arith

verify_week_lease-Held :
    (c : Connection) (day id : ℕ) (token : ℤ) (s : Store)
    → verifies c day id token s ≡ true
    → Held day id token s
unfolding verify_week_lease
verify_week_lease-Held c day id token s =
    (step _ _ (search lease_reads) λ _ _. step _ _ (search lease_reads) λ d hd.
      step _ _ (search lease_reads) λ n hn. step _ _ (search lease_reads) λ _ _.
        step _ _ (search lease_reads) λ found hf. record {
          at = λ h.
              subst (λ z. Held day id z s) (sym (checked_token-same token n s hn))
                (subst (λ z. Held z id (pos n) s) (week-same day d s hd)
                  (verify_decision-Held (c.clock 0) d id n s (
                    subst (λ o. lease_verified (verify_decision (c.clock 0) d id n o) ≡ true)
                      (read_control-same d found s hf) h)));
        }).at
  where
    step :
        {A : Type 0} (m : Call A) (f : A → Call LeaseDecision)
        → Reads m
        → ((a : A)
            → m s ≡ (ok a, s)
            → Ensures (λ x t. is_verified x ≡ true → Held day id token s) (f a s))
        → Ensures (λ x t. is_verified x ≡ true → Held day id token s) ((m >>= f) s)
    step m f rm good = Ensures-read m f s rm good (λ e h. absurd (false-true h))

rows-order :
    (k l : WeekControl) (a b x y : ℕ)
    → Advances k l
    → k.owner_run_id ≡ some a
    → pos k.fencing_token ≡ pos x
    → l.owner_run_id ≡ some b
    → pos l.fencing_token ≡ pos y
    → (x < y) ⊎ ((x ≡ y) × (a ≡ b))
rows-order k l a b x y adv ka kx lb ly = elim (Bool-cases (ltb x y)) [
  | inl less ↦ inl (ground arith)
  | inr not_less ↦
      let ex : k.fencing_token ≡ x = ground arith in
      let ey : l.fencing_token ≡ y = ground arith in
      let same : x ≡ y = ground (arith, adv.token) in
      let before : k.owner_run_id ≡ some b = adv.owner b lb (ey ∙ sym same ∙ sym ex) in
      inr (same, ground (arith, ka, before))
]

-- Two leases that were verified, the second after any sequence of lease calls.
pub Held-order :
    (s t : Store) (day a b : ℕ) (x y : ℕ)
    → Fenced s t
    → Held day a (pos x) s
    → Held day b (pos y) t
    → (x < y) ⊎ ((x ≡ y) × (a ≡ b))
Held-order s t day a b x y f h k =
    let (l, found, adv) = f.at day h.row h.found in
    rows-order h.row k.row a b x y (subst (Advances h.row) (ground (arith, found, k.found)) adv)
      h.owner h.number k.owner k.number

-- If a week's lease is verified for one run and token, and after any sequence of lease calls on any
-- connections it is verified for another run and token, then the later token is larger, unless token
-- and run are the same.
pub fencing :
    (calls : List (Connection × LeaseCall)) (s : Store) (c c' : Connection) (day a b x y : ℕ)
    → verifies c day a (pos x) s ≡ true
    → verifies c' day b (pos y) (replay_leases calls s) ≡ true
    → (x < y) ⊎ ((x ≡ y) × (a ≡ b))
fencing calls s c c' day a b x y h k =
    Held-order s _ day a b x y (replay_leases-Fenced calls s)
      (verify_week_lease-Held c day a (pos x) s h)
      (verify_week_lease-Held c' day b (pos y) (replay_leases calls s) k)
