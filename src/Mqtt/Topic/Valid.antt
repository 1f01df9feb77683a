-- ===== src/Mqtt/Topic/Valid.antt =====
-- core/aiot_mqtt_api.c: the filters that `_core_mqtt_topic_is_valid` lets through.
use aliyun_iot_arm.Prelude.{
  ℕ, ◌≡◌, refl, sym, ◌∙◌, subst, ◌↔◌, ◌⊎◌, inl, inr, Bool, true, List, [], ◌∷◌, ◌++◌, arith, ◌==◌,
  ==_iff, Bool-cases, All, Bytes,
}
use aliyun_iot_arm.Mqtt.Codes.{state_success}
use aliyun_iot_arm.Mqtt.Topic.{valid_from, topic_is_valid}
use aliyun_iot_arm.Mqtt.Topic.Levels.{tails, join, IsNot, IsPlain, IsFilter}

-- What validity says of the levels behind the first one.
abbrev ValidTails : List Bytes → Type 0
ValidTails [] = Unit
ValidTails (m ∷ ms) = valid_from b'/' (m ++ tails ms) ≡ true

valid-tails : (before : ℕ) (ls : List Bytes) → valid_from before (tails ls) ≡ true → ValidTails ls
unfolding valid_from
valid-tails before [] h = tt
valid-tails before (m ∷ ms) h = h

valid_plain :
    (before c : ℕ) (rest : Bytes) → IsPlain c → valid_from before (c ∷ rest) ≡ valid_from c rest
unfolding valid_from
valid_plain before c rest h = ground arith

-- Inside a level there is no wildcard.
inside :
    (before : ℕ) (l : Bytes) (ls : List Bytes)
    → IsNot b'/' before
    → All (IsNot b'/') l
    → valid_from before (l ++ tails ls) ≡ true
    → All IsPlain l × ValidTails ls
inside before [] ls hb hl h = (tt, valid-tails before ls h)
inside before (c ∷ l) ls hb hl h =
    let plain : IsPlain c =
      (hl.0, unfold valid_from in ground arith, unfold valid_from in ground arith) in
    let (all, behind) =
      inside c l ls hl.0 hl.1 (sym (valid_plain before c (l ++ tails ls) plain) ∙ h) in
    ((plain, all), behind)

-- At the start of a level, a wildcard is all of it.
plus_alone :
    (l : Bytes) (ls : List Bytes)
    → All (IsNot b'/') l
    → valid_from b'/' (b'+' ∷ (l ++ tails ls)) ≡ true
    → (l ≡ []) × ValidTails ls
unfolding valid_from
plus_alone [] [] hl h = (refl, tt)
plus_alone [] (m ∷ ms) hl h = (refl, h)
plus_alone (c ∷ l) ls hl h = absurd (ground arith)

hash_alone :
    (l : Bytes) (ls : List Bytes)
    → valid_from b'/' (b'#' ∷ (l ++ tails ls)) ≡ true
    → (l ≡ []) × (ls ≡ [])
unfolding valid_from
hash_alone [] [] h = (refl, refl)
hash_alone [] (m ∷ ms) h = cc
hash_alone (c ∷ l) ls h = cc

abbrev IsLevel : Bytes → List Bytes → Type 0
IsLevel l ls = All IsPlain l ⊎ ((l ≡ b'+' ∷ []) ⊎ ((l ≡ b'#' ∷ []) × (ls ≡ [])))

IsLevel-start :
    (l : Bytes) (ls : List Bytes)
    → All (IsNot b'/') l
    → valid_from b'/' (l ++ tails ls) ≡ true
    → IsLevel l ls × ValidTails ls
IsLevel-start [] ls hl h = (inl tt, valid-tails b'/' ls h)
IsLevel-start (c ∷ l) ls hl h = elim (Bool-cases (c == b'+')) [
  | inl e ↦
      let (alone, behind) = plus_alone l ls hl.1 (rw ((==_iff c b'+').0 e) at h) in
      (inr (inl (ground arith)), behind)
  | inr not_plus ↦ elim (Bool-cases (c == b'#')) [
    | inl e ↦
        let (alone, last) = hash_alone l ls (rw ((==_iff c b'#').0 e) at h) in
        (inr (inr (ground arith, last)), subst ValidTails (sym last) tt)
    | inr not_hash ↦
        let plain : IsPlain c = (hl.0, not_plus, not_hash) in
        let (all, behind) =
          inside c l ls hl.0 hl.1 (sym (valid_plain b'/' c (l ++ tails ls) plain) ∙ h) in
        (inl (plain, all), behind)
  ]
]

IsFilter-valid :
    (l : Bytes) (ls : List Bytes)
    → All (All (IsNot b'/')) (l ∷ ls)
    → valid_from b'/' (join (l ∷ ls)) ≡ true
    → IsFilter (l ∷ ls)
IsFilter-valid l [] h v = ((IsLevel-start l [] h.0 v).0, tt)
IsFilter-valid l (m ∷ ms) h v =
    let (level, behind) = IsLevel-start l (m ∷ ms) h.0 v in (level, IsFilter-valid m ms h.1 behind)

valid-plain :
    (before : ℕ) (l : Bytes) (ls : List Bytes)
    → All IsPlain l
    → ValidTails ls
    → valid_from before (l ++ tails ls) ≡ true
valid-plain before [] [] hl h = unfold valid_from in refl
valid-plain before [] (m ∷ ms) hl h = unfold valid_from in h
valid-plain before (c ∷ l) ls hl h =
    valid_plain before c (l ++ tails ls) hl.0 ∙ valid-plain c l ls hl.1 h

valid-level :
    (l : Bytes) (ls : List Bytes)
    → IsLevel l ls
    → ValidTails ls
    → valid_from b'/' (l ++ tails ls) ≡ true
unfolding valid_from
valid-level l ls (inl plain) h = valid-plain b'/' l ls plain h
valid-level l [] (inr (inl e)) h = rw e
valid-level l (m ∷ ms) (inr (inl e)) h = rw e h
valid-level l ls (inr (inr (e, last))) h = rw (e, last)

valid-IsFilter :
    (l : Bytes) (ls : List Bytes) → IsFilter (l ∷ ls) → valid_from b'/' (join (l ∷ ls)) ≡ true
valid-IsFilter l [] f = valid-level l [] f.0 tt
valid-IsFilter l (m ∷ ms) f = valid-level l (m ∷ ms) f.0 (valid-IsFilter m ms f.1)

-- Of the texts that begin with a slash, with any levels behind it, those are let through whose
-- wildcards fill their levels, `#` only the last one; whether the header is checked makes no
-- difference.
pub topic_is_valid_iff :
    (topic_header_check : Bool) (l : Bytes) (ls : List Bytes)
    → All (All (IsNot b'/')) (l ∷ ls)
    → (topic_is_valid topic_header_check (b'/' ∷ join (l ∷ ls)) ≡ state_success) ↔ IsFilter (l ∷ ls)
unfolding topic_is_valid
topic_is_valid_iff check l ls h =
    (λ e. IsFilter-valid l ls h (ground arith), λ f. ground (arith, valid-IsFilter l ls f))
