-- ===== src/Mqtt/Topic/Levels.antt =====
-- core/aiot_mqtt_api.c: topic filters as lists of levels, and the match of levels that MQTT describes.
use aliyun_iot_arm.Prelude.{
  ℕ, ◌≡◌, refl, sym, ◌∙◌, subst, subst₂, ◌⊎◌, inl, inr, Bool, true, false, ◌&&◌, List, [], ◌∷◌,
  ◌++◌, arith, ◌==◌, if◌then◌else◌, All, Bytes, codes, str_eq,
}
use aliyun_iot_arm.Mqtt.Codes.{state_success, state_mqtt_topic_compare_failed}
use aliyun_iot_arm.Mqtt.Topic.{skip_level, compare_from, is_empty, is_parent, topic_compare}

-- The levels behind the first one, each with its slash.
abbrev pub tails : List Bytes → Bytes
tails [] = []
tails (m ∷ ms) = b'/' ∷ (m ++ tails ms)

-- The levels of a topic with a slash between them.
abbrev pub join : List Bytes → Bytes
join [] = []
join (l ∷ ls) = l ++ tails ls

abbrev pub no_levels : List Bytes → Bool
no_levels [] = true
no_levels (l ∷ ls) = false

-- `+` stands for one level, a last `#` for any number of levels and for none.
pub matches : List Bytes → List Bytes → Bool
unfolding str_eq
matches [] us = no_levels us
matches (l ∷ ls) [] = str_eq l (codes "#") && no_levels ls
matches (l ∷ ls) (u ∷ us) =
    let rest = matches ls us in
    if str_eq l (codes "#")
    then true
    else (if str_eq l (codes "+") then rest else str_eq l u && rest)

abbrev pub IsNot : ℕ → ℕ → Type 0
IsNot k c = (c == k) ≡ false

abbrev pub IsPlain : ℕ → Type 0
IsPlain c = IsNot b'/' c × IsNot b'+' c × IsNot b'#' c

-- A wildcard fills its level, and `#` is the last one.
abbrev pub IsFilter : List Bytes → Type 0
IsFilter [] = Unit
IsFilter (l ∷ ls) =
    (All IsPlain l ⊎ ((l ≡ b'+' ∷ []) ⊎ ((l ≡ b'#' ∷ []) × (ls ≡ [])))) × IsFilter ls

-- A topic of at least one level, whose last level is not empty.
abbrev pub IsTopic : List Bytes → Type 0
IsTopic [] = ⊥
IsTopic (u ∷ []) = All (IsNot b'/') u × (is_empty u ≡ false)
IsTopic (u ∷ v ∷ us) = All (IsNot b'/') u × IsTopic (v ∷ us)

is_parent_other : (c : ℕ) (s : Bytes) → IsNot b'/' c → is_parent (c ∷ s) ≡ false
is_parent_other c [] h = refl
is_parent_other c (d ∷ []) h = rw h
is_parent_other c (d ∷ e ∷ s) h = refl

is_parent-tails :
    (m : Bytes) (ms : List Bytes)
    → is_parent (b'/' ∷ (m ++ tails ms)) ≡ (str_eq m (b'#' ∷ []) && no_levels ms)
unfolding str_eq
is_parent-tails [] [] = refl
is_parent-tails [] ([] ∷ []) = refl
is_parent-tails [] ([] ∷ n ∷ ms) = refl
is_parent-tails [] ((c ∷ m) ∷ ms) = refl
is_parent-tails (e ∷ []) [] = ground arith
is_parent-tails (e ∷ []) (n ∷ ms) = ground arith
is_parent-tails (e ∷ f ∷ m) ms = ground arith

compare_past :
    (d : ℕ) (u : Bytes) (ls : List Bytes) → IsNot b'/' d → compare_from (tails ls) (d ∷ u) ≡ false
unfolding compare_from
compare_past d u [] h = refl
compare_past d u (m ∷ ms) h = ground arith

-- A level with no wildcard is compared character by character.
compare_plain :
    (l u : Bytes) (ls us : List Bytes)
    → All IsPlain l
    → All (IsNot b'/') u
    → compare_from (l ++ tails ls) (u ++ tails us)
      ≡ (str_eq l u && compare_from (tails ls) (tails us))
unfolding compare_from str_eq
compare_plain [] [] ls us hl hu = refl
compare_plain [] (d ∷ u) ls us hl hu = compare_past d (u ++ tails us) ls hu.0
compare_plain (c ∷ l) [] ls [] hl hu = is_parent_other c (l ++ tails ls) hl.0.0
compare_plain (c ∷ l) [] ls (v ∷ vs) hl hu = ground arith
compare_plain (c ∷ l) (d ∷ u) ls us hl hu = ground (arith, compare_plain l u ls us hl.1 hu.1)

skip_level-tails :
    (u : Bytes) (us : List Bytes) → All (IsNot b'/') u → skip_level (u ++ tails us) ≡ tails us
unfolding skip_level
skip_level-tails [] [] h = refl
skip_level-tails [] (v ∷ vs) h = refl
skip_level-tails (d ∷ u) us h = ground (arith, skip_level-tails u us h.1)

compare_plus :
    (u : Bytes) (ls us : List Bytes)
    → All (IsNot b'/') u
    → is_empty (u ++ tails us) ≡ false
    → compare_from (b'+' ∷ tails ls) (u ++ tails us) ≡ compare_from (tails ls) (tails us)
unfolding compare_from
compare_plus [] ls [] h e = cc
compare_plus [] [] (v ∷ vs) h e = refl
compare_plus [] (m ∷ ms) (v ∷ vs) h e = refl
compare_plus (d ∷ u) [] [] h e = ground (arith, skip_level-tails (d ∷ u) [] h)
compare_plus (d ∷ u) [] (v ∷ vs) h e = ground (arith, skip_level-tails (d ∷ u) (v ∷ vs) h)
compare_plus (d ∷ u) (m ∷ ms) us h e = ground (arith, skip_level-tails (d ∷ u) us h)

compare_hash : (u : Bytes) → is_empty u ≡ false → compare_from (b'#' ∷ []) u ≡ true
unfolding compare_from
compare_hash [] e = cc
compare_hash (d ∷ u) e = refl

IsTopic-head : (u : Bytes) (us : List Bytes) → IsTopic (u ∷ us) → All (IsNot b'/') u
IsTopic-head u [] h = h.0
IsTopic-head u (v ∷ us) h = h.0

is_empty-join : (us : List Bytes) → IsTopic us → is_empty (join us) ≡ false
is_empty-join [] h = absurd h
is_empty-join ([] ∷ []) h = h.1
is_empty-join ((c ∷ u) ∷ us) h = refl
is_empty-join ([] ∷ v ∷ us) h = refl

plain_ne :
    (l : Bytes) → All IsPlain l → (str_eq l (b'#' ∷ []) ≡ false) × (str_eq l (b'+' ∷ []) ≡ false)
unfolding str_eq
plain_ne [] h = (refl, refl)
plain_ne (c ∷ l) h = ground arith

-- The first levels, where what is behind them is compared by levels.
first_level :
    (l u : Bytes) (ls us : List Bytes)
    → IsFilter (l ∷ ls)
    → IsTopic (u ∷ us)
    → compare_from (tails ls) (tails us) ≡ matches ls us
    → compare_from (join (l ∷ ls)) (join (u ∷ us)) ≡ matches (l ∷ ls) (u ∷ us)
unfolding matches
first_level l u ls us (inl plain, f) t behind =
    let (not_hash, not_plus) = plain_ne l plain in
    compare_plain l u ls us plain (IsTopic-head u us t)
    ∙ rw (not_hash, matches) (rw not_plus (rw behind))
first_level l u ls us (inr (inl e), f) t behind =
    subst (λ x. compare_from (x ++ tails ls) (u ++ tails us) ≡ matches (x ∷ ls) (u ∷ us)) (sym e)
      (compare_plus u ls us (IsTopic-head u us t) (is_empty-join (u ∷ us) t) ∙ behind)
first_level l u ls us (inr (inr (e, last)), f) t behind =
    subst₂ (λ x xs. compare_from (x ++ tails xs) (u ++ tails us) ≡ matches (x ∷ xs) (u ∷ us))
      (sym e) (sym last) (compare_hash (u ++ tails us) (is_empty-join (u ∷ us) t))

compare_slash : (s t : Bytes) → compare_from (b'/' ∷ s) (b'/' ∷ t) ≡ compare_from s t
unfolding compare_from
compare_slash s t = refl

compare-matches :
    (l : Bytes) (ls us : List Bytes)
    → IsFilter (l ∷ ls)
    → IsTopic us
    → compare_from (join (l ∷ ls)) (join us) ≡ matches (l ∷ ls) us
compare-matches l ls [] f t = absurd t
compare-matches l [] (u ∷ []) f t = first_level l u [] [] f t (unfold compare_from matches in refl)
compare-matches l [] (u ∷ v ∷ us) f t =
    first_level l u [] (v ∷ us) f t (unfold compare_from matches in refl)
compare-matches l (m ∷ ms) (u ∷ []) f t =
    first_level l u (m ∷ ms) [] f t (unfold compare_from matches in is_parent-tails m ms)
compare-matches l (m ∷ ms) (u ∷ v ∷ us) f t =
    first_level l u (m ∷ ms) (v ∷ us) f t
      (compare_slash (join (m ∷ ms)) (join (v ∷ us)) ∙ compare-matches m ms (v ∷ us) f.1 t.1)

-- A filter whose wildcards are well placed takes exactly the topics whose levels it matches, of the
-- topics whose last level is not empty.
pub topic_compare-matches :
    (l : Bytes) (ls us : List Bytes)
    → IsFilter (l ∷ ls)
    → IsTopic us
    → topic_compare (join (l ∷ ls)) (join us)
      ≡ (if matches (l ∷ ls) us then state_success else state_mqtt_topic_compare_failed)
unfolding topic_compare
topic_compare-matches l ls us f t = rw (compare-matches l ls us f t)
