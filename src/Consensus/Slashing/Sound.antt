-- ===== src/Consensus/Slashing/Sound.antt =====
-- Sound safety profiles, and the parts of the changes that keep them sound.
use unauthority_core.Base.{
  ℕ, ◌+◌, ◌≤◌, ◌≡◌, refl, Str, str_eq, str_eq_iff, Bool, true, false, List, [], ◌∷◌, ◌++◌, arith,
  ltb, u32, u128, if◌then◌else◌, length, length-append, length-drop, drop, any, All, str_key, inl,
  inr, Bool-cases,
}
use unauthority_core.Base.Outcome.{ok}
use unauthority_core.Consensus.Slashing.State.{
  SlashEvent, ValidatorStatus, SignatureRecord, ValidatorSafetyProfile,
}
use unauthority_core.Consensus.Slashing.{Change, conflicts, keep_recent, punish}

-- The sum of the penalties.
abbrev pub penalties : List SlashEvent → ℕ
penalties [] = 0
penalties (event ∷ events) = event.slash_amount_cil + penalties events

-- No two records of one height name different blocks.
abbrev pub SignsOnce : List SignatureRecord → Type 0
SignsOnce [] = Unit
SignsOnce (sig ∷ sigs) =
    (any (conflicts sig.block_height sig.signature_hash) sigs ≡ false) × SignsOnce sigs

abbrev pub IsEventOf : Str → SlashEvent → Type 0
IsEventOf validator_address event = event.validator_address ≡ validator_address

pub record IsSound (validator_address : Str) (profile : ValidatorSafetyProfile) : Type 0 where
  pub named : profile.validator_address ≡ validator_address
  pub total : profile.total_slashed_cil ≡ u128 (penalties profile.slash_history)
  pub counted : profile.violation_count ≡ u32 (length profile.slash_history)
  pub own_events : All (IsEventOf validator_address) profile.slash_history
  pub signs_once : SignsOnce profile.recent_signatures
  pub few_signatures : length profile.recent_signatures ≤ 1_000

penalties-snoc :
    (events : List SlashEvent) (event : SlashEvent)
    → penalties (events ++ (event ∷ [])) ≡ penalties events + event.slash_amount_cil
penalties-snoc [] event = omega arith
penalties-snoc (e ∷ events) event = omega (arith, penalties-snoc events event)

snoc-All :
    {A : Type 0} (P : A → Type 0) (xs : List A) (x : A) → All P xs → P x → All P (xs ++ (x ∷ []))
snoc-All P [] x all px = (px, tt)
snoc-All P (y ∷ xs) x all px = (all.0, snoc-All P xs x all.1 px)

any-snoc :
    {A : Type 0} (f : A → Bool) (xs : List A) (x : A)
    → any f (xs ++ (x ∷ [])) ≡ (if any f xs then true else f x)
any-snoc f [] x = ground arith
any-snoc f (y ∷ xs) x = ground (arith, any-snoc f xs x)

str_eq_comm : (s t : Str) → str_eq s t ≡ str_eq t s
str_eq_comm s t = ground (arith, str_eq_iff s t, str_eq_iff t s)

conflicts_comm :
    (a b : SignatureRecord)
    → conflicts a.block_height a.signature_hash b ≡ conflicts b.block_height b.signature_hash a
conflicts_comm a b = ground (arith, str_eq_comm a.signature_hash b.signature_hash)

pub snoc-SignsOnce :
    (sigs : List SignatureRecord) (sig : SignatureRecord)
    → any (conflicts sig.block_height sig.signature_hash) sigs ≡ false
    → SignsOnce sigs
    → SignsOnce (sigs ++ (sig ∷ []))
snoc-SignsOnce [] sig fresh once = (refl, tt)
snoc-SignsOnce (first ∷ sigs) sig fresh once = (
  ground (
    arith,
    any-snoc (conflicts first.block_height first.signature_hash) sigs sig,
    conflicts_comm first sig,
  ),
  snoc-SignsOnce sigs sig (ground arith) once.1,
)

drop-SignsOnce : (sigs : List SignatureRecord) → SignsOnce sigs → SignsOnce (drop 1 sigs)
drop-SignsOnce [] once = tt
drop-SignsOnce (sig ∷ sigs) once = once.1

pub keep_recent-SignsOnce :
    (sigs : List SignatureRecord) → SignsOnce sigs → SignsOnce (keep_recent sigs)
keep_recent-SignsOnce sigs once = elim (Bool-cases (ltb 1_000 (length sigs))) [
  | inl many ↦ rw many (drop-SignsOnce sigs once)
  | inr few ↦ rw few once
]

pub length-keep_recent :
    (sigs : List SignatureRecord) (sig : SignatureRecord)
    → length sigs ≤ 1_000
    → length (keep_recent (sigs ++ (sig ∷ []))) ≤ 1_000
length-keep_recent sigs sig h =
    ground (arith, length-append sigs (sig ∷ []), length-drop 1 (sigs ++ (sig ∷ [])))

-- A change that keeps a profile of this address sound.
abbrev pub KeepsSound : {A : Type 0} → Str → Change A → Type 0
KeepsSound {A = A} a change =
    (profile : ValidatorSafetyProfile) (x : A) (profile' : ValidatorSafetyProfile)
    (events : List SlashEvent)
    → change profile ≡ ok (x, profile', events)
    → IsSound a profile
    → IsSound a profile'

pub punish-IsSound :
    (a : Str) (status : ValidatorStatus) (event : SlashEvent) (profile : ValidatorSafetyProfile)
    → event.validator_address ≡ a
    → IsSound a profile
    → IsSound a (punish status event profile)
unfolding punish
punish-IsSound a status event profile e v = record {
  named = v.named;
  total = omega (arith, v.total, penalties-snoc profile.slash_history event);
  counted = omega (arith, v.counted, length-append profile.slash_history (event ∷ []));
  own_events = snoc-All (IsEventOf a) profile.slash_history event v.own_events e;
  signs_once = v.signs_once;
  few_signatures = v.few_signatures;
}

module _ (a : Str) (profile : ValidatorSafetyProfile) (v : IsSound a profile) where
  pub with_signatures-IsSound :
      (sigs : List SignatureRecord)
      → SignsOnce sigs
      → length sigs ≤ 1_000
      → IsSound a (record profile { recent_signatures = sigs })
  with_signatures-IsSound sigs once few = record {
    named = v.named;
    total = v.total;
    counted = v.counted;
    own_events = v.own_events;
    signs_once = once;
    few_signatures = few;
  }

  pub with_counters-IsSound :
      (status : ValidatorStatus) (participated observed last : ℕ)
      → IsSound a (record profile {
        status = status;
        blocks_participated = participated;
        total_blocks_observed = observed;
        last_participation_timestamp = last;
      })
  with_counters-IsSound status participated observed last = record {
    named = v.named;
    total = v.total;
    counted = v.counted;
    own_events = v.own_events;
    signs_once = v.signs_once;
    few_signatures = v.few_signatures;
  }
