-- ===== src/Mqtt/Client/Session/Backoff.antt =====
-- core/aiot_mqtt_api.c: when a lost connection is tried again.
use native.Mathlib.Nat.{mul-le-mul}
use aliyun_iot_arm.Prelude.{
  ℕ, ◌*◌, pos, ap, ◌∙◌, ◌+◌, ◌%◌, ◌^◌, ◌≤◌, ◌<◌, ◌≡◌, refl, sym, subst, inl, inr, Bool, true, false,
  arith, ltb, if◌then◌else◌, Bool-cases, eq_ℤ,
}
use aliyun_iot_arm.Mqtt.Codes.{
  Code, state_success, state_sys_depend_nwk_closed, state_mqtt_connect_success,
}
use aliyun_iot_arm.Mqtt.Client.State.{Port, Handle, Out}
use aliyun_iot_arm.Mqtt.Client.Outbound.{refused}
use aliyun_iot_arm.Mqtt.Client.Session.{
  add_wrap, backoff, reconnect_step, interval_of, max_counters,
}

backoff-counter :
    (res : Code) (h : Handle)
    → h.reconnect_counter ≤ max_counters
    → (backoff res h).reconnect_counter ≤ max_counters
unfolding backoff
backoff-counter res h small = elim (Bool-cases h.backoff_enabled) [
  | inr off ↦ rw off small
  | inl on ↦ elim (Bool-cases (eq_ℤ res state_mqtt_connect_success)) [
    | inl done ↦ rw (on, done) (omega arith)
    | inr failed ↦ elim (Bool-cases (ltb h.reconnect_counter max_counters)) [
      | inl less ↦ rw (on, failed, less) (ground arith)
      | inr full ↦ rw (on, failed, full) small
    ]
  ]
]

both_hold :
    {W : Type 0} (c : Bool) (P : Out W → Type 0) (x y : Out W) → P x → P y → P (if c then x else y)
both_hold true P x y px py = px
both_hold false P x y px py = py

abbrev Bounded : {W : Type 0} → Out W → Type 0
Bounded out = out.handle.reconnect_counter ≤ max_counters

-- An attempt to reconnect, whatever comes of it, leaves the counter that lengthens the interval at 60 or
-- below, if it was and if `_core_mqtt_connect` does not change it.
pub reconnect_step-counter :
    {W : Type 0} (p : Port W) (core_connect : Handle → W → Out W) (h : Handle) (w : W)
    → ((g : Handle) (v : W) → (core_connect g v).handle.reconnect_counter ≡ g.reconnect_counter)
    → h.reconnect_counter ≤ max_counters
    → (reconnect_step p core_connect h w).handle.reconnect_counter ≤ max_counters
unfolding reconnect_step
reconnect_step-counter p core_connect h w keeps small =
    let (now, w1) = p.time w in
    let last = if ltb now h.last_retry_time then now else h.last_retry_time in
    let h1 = record h { last_retry_time = last } in
    let out = core_connect h1 w1 in
    let tried = record (out.handle) { last_retry_time = (p.time out.world).0 } in
    let kept : tried.reconnect_counter ≤ max_counters =
      subst (λ n. n ≤ max_counters) (sym (keeps h1 w1)) small in
    both_hold h.network Bounded (refused state_success h w) _ small (
      both_hold (ltb now ((last + interval_of h) % 2 ^ 64)) Bounded
        (refused state_sys_depend_nwk_closed h1 w1) _ small (backoff-counter out.res tried kept))

-- Before the interval since the last attempt has passed, no attempt is made.
reconnect_step-waits :
    {W : Type 0} (p : Port W) (core_connect : Handle → W → Out W) (h : Handle) (w : W)
    → h.network ≡ false
    → h.last_retry_time ≤ (p.time w).0
    → (p.time w).0 < h.last_retry_time + interval_of h
    → h.last_retry_time + interval_of h < 2 ^ 64
    → reconnect_step p core_connect h w ≡ refused state_sys_depend_nwk_closed h (p.time w).1
unfolding reconnect_step
reconnect_step-waits p core_connect h w closed forward early fits =
    let now = (p.time w).0 in
    let same : ltb now h.last_retry_time ≡ false = ground arith in
    let soon : ltb now ((h.last_retry_time + interval_of h) % 2 ^ 64) ≡ true = ground arith in
    rw (closed, same, soon) refl

-- Behind the interval an attempt is made.
reconnect_step-tries :
    {W : Type 0} (p : Port W) (core_connect : Handle → W → Out W) (h : Handle) (w : W)
    → h.network ≡ false
    → h.last_retry_time ≤ (p.time w).0
    → h.last_retry_time + interval_of h ≤ (p.time w).0
    → (p.time w).0 < 2 ^ 64
    → let out = core_connect h (p.time w).1 in
      reconnect_step p core_connect h w ≡ record out {
        handle = backoff out.res (record (out.handle) { last_retry_time = (p.time out.world).0 });
        world = (p.time out.world).1;
      }
unfolding reconnect_step
reconnect_step-tries p core_connect h w closed forward late fits =
    let now = (p.time w).0 in
    let same : ltb now h.last_retry_time ≡ false = ground arith in
    let due : ltb now ((h.last_retry_time + interval_of h) % 2 ^ 64) ≡ false = ground arith in
    rw (closed, same, due) refl

mod_small : (a m : ℕ) → a < 2 ^ 32 → a % 2 ^ 32 ≡ a
mod_small a m small = omega arith

interval_is :
    (h : Handle) (r : ℕ)
    → h.backoff_enabled ≡ true
    → h.rand_ms ≡ pos r
    → h.reconnect_interval_ms * (h.reconnect_counter + 1) + r < 2 ^ 32
    → interval_of h ≡ h.reconnect_interval_ms * (h.reconnect_counter + 1) + r
interval_is h r on rand small =
    ap
      (λ b.
        if b
        then add_wrap (h.reconnect_interval_ms * (h.reconnect_counter + 1)) h.rand_ms
        else h.reconnect_interval_ms)
      on
    ∙ ap (add_wrap (h.reconnect_interval_ms * (h.reconnect_counter + 1))) rand
    ∙ mod_small (h.reconnect_interval_ms * (h.reconnect_counter + 1) + r) 0 small

backoff-failed :
    (res : Code) (h : Handle)
    → h.backoff_enabled ≡ true
    → eq_ℤ res state_mqtt_connect_success ≡ false
    → h.reconnect_counter ≤ 60
    → backoff res h ≡ record h {
      reconnect_counter = if ltb h.reconnect_counter 60 then h.reconnect_counter + 1 else 60;
    }
unfolding backoff
backoff-failed res h on failed small = elim (Bool-cases (ltb h.reconnect_counter 60)) [
  | inl less ↦ rw (on, failed, less) refl
  | inr full ↦
      let is : h.reconnect_counter ≡ 60 = ground arith in
      rw (on, failed, full) (λ i. record h { backoff_enabled = true; reconnect_counter = is i })
]

-- The counter behind one more failure.
abbrev pub counter_after : (reconnect_counter : ℕ) → ℕ
counter_after reconnect_counter = if ltb reconnect_counter 60 then reconnect_counter + 1 else 60

counter_after-le : (c : ℕ) → counter_after c ≤ 60
counter_after-le c = ground arith

interval_fits : (a c r : ℕ) → c ≤ 60 → a * 61 + r < 2 ^ 32 → a * (c + 1) + r < 2 ^ 32
interval_fits a c r small fits =
    let less : a * (c + 1) ≤ a * 61 = mul-le-mul (omega arith) (omega arith) in omega arith

-- With the backoff on, an attempt to reconnect is made once the interval, times one more than the counter of
-- failures, and the client's own delay have passed since the last one. One that fails, and leaves the client
-- as it was, is remembered with the time of its end and in the counter, which stops at 60; and until the
-- longer interval from then on has passed, the next call makes no attempt: it answers that the connection is
-- closed and changes nothing. The delay is not negative, the clock does not go back, and the intervals are
-- of 32 bits and the times of 64.
pub reconnect_step-spaced :
    {W : Type 0} (p : Port W) (core_connect : Handle → W → Out W) (h : Handle) (w w' : W) (r : ℕ)
    → let out = core_connect h (p.time w).1 in
      let later = (p.time out.world).0 in
      let next = counter_after h.reconnect_counter in
      h.network ≡ false
      → h.backoff_enabled ≡ true
      → h.rand_ms ≡ pos r
      → h.reconnect_counter ≤ 60
      → h.reconnect_interval_ms * 61 + r < 2 ^ 32
      → h.last_retry_time ≤ (p.time w).0
      → h.last_retry_time + (h.reconnect_interval_ms * (h.reconnect_counter + 1) + r) ≤ (p.time w).0
      → (p.time w).0 < 2 ^ 64
      → out.handle ≡ h
      → eq_ℤ out.res state_mqtt_connect_success ≡ false
      → later ≤ (p.time w').0
      → (p.time w').0 < later + (h.reconnect_interval_ms * (next + 1) + r)
      → later + (h.reconnect_interval_ms * (next + 1) + r) < 2 ^ 64
      → let first = reconnect_step p core_connect h w in
        (first.res ≡ out.res)
        × (first.handle ≡ record h { last_retry_time = later; reconnect_counter = next })
        × (reconnect_step p core_connect first.handle w'
            ≡ refused state_sys_depend_nwk_closed first.handle (p.time w').1)
reconnect_step-spaced p core_connect h w w' r closed on rand small fits forward late fits' keeps
      failed forward' early fits'' =
    let out = core_connect h (p.time w).1 in
    let later = (p.time out.world).0 in
    let next = counter_after h.reconnect_counter in
    let due =
      interval_is h r on rand
        (interval_fits h.reconnect_interval_ms h.reconnect_counter r small fits) in
    let tried : h.last_retry_time + interval_of h ≤ (p.time w).0 = omega (arith, due) in
    let run = reconnect_step-tries p core_connect h w closed forward tried fits' in
    let g = record h { last_retry_time = later; reconnect_counter = next } in
    let left : (reconnect_step p core_connect h w).handle ≡ g =
      ap (λ o. o.handle) run
      ∙ ap (λ k. backoff out.res (record k { last_retry_time = later })) keeps
      ∙ backoff-failed out.res (record h { last_retry_time = later }) on failed small in
    let most : next ≤ 60 = counter_after-le h.reconnect_counter in
    let wait : interval_of g ≡ h.reconnect_interval_ms * (next + 1) + r =
      interval_is g r on rand (interval_fits h.reconnect_interval_ms next r most fits) in
    (
      ap (λ o. o.res) run,
      left,
      ap (λ k. reconnect_step p core_connect k w') left
          ∙ reconnect_step-waits p core_connect g w' closed forward' (omega (arith, wait))
              (omega (arith, wait))
          ∙ ap (λ k. refused state_sys_depend_nwk_closed k (p.time w').1) (sym left),
    )
