-- ===== src/Mqtt/Client/Net.antt =====
-- core/aiot_mqtt_api.c: reading and writing on the connection, and closing it after an error.
use aliyun_iot_arm.Prelude.{
  ℕ, zero, suc, ◌+◌, ◌*◌, ◌%◌, ◌^◌, false, not, ◌&&◌, [], ◌∷◌, bit_and, ltb, leb, ◌==◌,
  if◌then◌else◌, length, ℤ, pos, negsuc, is_neg, eq_ℤ, Bytes,
}
use aliyun_iot_arm.Mqtt.Codes.{
  Code, state_success, state_sys_depend_nwk_closed, state_sys_depend_nwk_read_lessdata,
  state_sys_depend_nwk_write_lessdata, state_sys_depend_nwk_send_err, state_sys_depend_nwk_recv_err,
  state_mqtt_malformed_remaining_len, state_mqtt_malformed_remaining_bytes,
  state_sys_depend_malloc_failed, port_base,
}
use aliyun_iot_arm.Mqtt.Client.State.{Port, Handle, Out}

-- An error of the port layer is passed on: those from `STATE_PORT_BASE - 0xFF` up to below the base.
unfoldable pub sysdep_return : Code → Code → Code
sysdep_return (pos n) core_code = core_code
sysdep_return (negsuc n) core_code =
    if leb port_base n && ltb n (port_base + 0xFF) then negsuc n else core_code

-- The code of a call that moved `res` of `len` bytes.
unfoldable pub transfer_code : (res : ℤ) (len : ℕ) (err less : Code) → Code
unfolding sysdep_return
transfer_code res len err less =
    if is_neg res then sysdep_return res err else (if eq_ℤ res (pos len) then res else less)

-- The first byte of what a read of one byte left.
abbrev pub byte_of : Bytes → ℕ
byte_of [] = 0
byte_of (ch ∷ rest) = ch

-- `if (network_handle != NULL) core_sysdep_network_deinit(&network_handle)`, on the two states.
unfoldable pub close_handle : Handle → Handle
close_handle h = record h { network = false }

module _ {W : Type 0} (p : Port W) where
  -- `_core_mqtt_read`
  unfoldable pub read : Handle → ℕ → W → Code × Bytes × W
  unfolding transfer_code
  read h len w =
      let (res, bytes, w') = p.recv len w in
      let code =
        transfer_code res len state_sys_depend_nwk_recv_err state_sys_depend_nwk_read_lessdata in
      if h.network then (code, bytes, w') else (state_sys_depend_nwk_closed, [], w)

  -- `_core_mqtt_write`
  unfoldable pub write : Handle → Bytes → W → Code × W
  unfolding transfer_code
  write h packet w =
      let (res, w') = p.send packet w in
      let code =
        transfer_code res (length packet) state_sys_depend_nwk_send_err
          state_sys_depend_nwk_write_lessdata in
      if h.network then (code, w') else (state_sys_depend_nwk_closed, w)

  unfoldable pub close_world : Handle → W → W
  close_world h w = if h.network then p.deinit w else w

  -- A packet is sent; on an error other than a short write the connection is closed.
  unfoldable pub send_packet : Handle → Bytes → W → Out W
  unfolding write close_handle close_world
  send_packet h packet w =
      let (res, w') = write h packet w in
      let closes = is_neg res && not (eq_ℤ res state_sys_depend_nwk_write_lessdata) in
      record {
        res = res;
        handle = if closes then close_handle h else h;
        world = if closes then close_world h w' else w';
        events = [];
      }

  -- The loop of `_core_mqtt_read_remainlen`, on fuel; the length is of 32 bits.
  unfoldable pub remainlen_loop : ℕ → Handle → (multiplier remainlen : ℕ) → W → Code × ℕ × W
  unfolding read
  remainlen_loop zero h multiplier remainlen w = (state_mqtt_malformed_remaining_len, 0, w)
  remainlen_loop (suc fuel) h multiplier remainlen w =
      let (res, bytes, w') = read h 1 w in
      let ch = byte_of bytes in
      let sum = (remainlen + bit_and ch 127 * multiplier) % 2 ^ 32 in
      let more = remainlen_loop fuel h (multiplier * 128) sum w' in
      if is_neg res
      then (res, 0, w')
      else (if ltb (128 * 128 * 128) multiplier
          then (state_mqtt_malformed_remaining_len, 0, w')
          else (if not (bit_and ch 128 == 0) then more else (state_success, sum, w')))

  -- The fifth round refuses at the latest.
  unfoldable pub read_remainlen : Handle → W → Code × ℕ × W
  unfolding remainlen_loop
  read_remainlen h w = remainlen_loop 5 h 1 0 w

  unfoldable pub read_remainbytes : Handle → ℕ → W → Code × Bytes × W
  unfolding read
  read_remainbytes h remainlen w =
      let (had, w') = p.malloc w in
      let (res, bytes, w'') = read h remainlen w' in
      if remainlen == 0
      then (state_success, [], w)
      else (if not had
          then (state_sys_depend_malloc_failed, [], w')
          else (if is_neg res
              then (
                if eq_ℤ res state_sys_depend_nwk_read_lessdata
                    then state_mqtt_malformed_remaining_bytes
                    else res,
                [],
                w'',
              )
              else (state_success, bytes, w'')))
