-- ===== src/Ide/Tests.antt =====
-- Runs of the lock of src/ide_connection_manager.c on two IDEs.
use aliyun_iot_arm.Prelude.{refl, inl, true, some, List, [], ◌∷◌, arith, Bytes, codes, str_eq}
use aliyun_iot_arm.Ide.Manager.{Manager}
use aliyun_iot_arm.Ide.Manager.Lock.{
  Op, on_request_connect, on_disconnect, on_heartbeat, step, run, Held, IsValid, Held-run,
  step-IsValid,
}

abbrev ide_a : Bytes
ide_a = codes "ide-a"

abbrev ide_b : Bytes
ide_b = codes "ide-b"

abbrev params_b : Bytes
params_b = codes "{\"clientId\": \"ide-b\"}"

abbrev held_by_a : Manager
held_by_a = record {
  connected = true;
  current_client_id = ide_a;
  current_client_info = [];
  last_heartbeat_ms = 1000;
}

-- ide-b asks too early, and sends a heartbeat and a disconnect that are not its to send.
abbrev intruder : List Op
intruder =
    on_request_connect true 2000 (some params_b) 256
    ∷ on_heartbeat true 3000 (some params_b) 256
    ∷ on_disconnect true (some params_b) 256
    ∷ []

Held-run_example : Held ide_a (run intruder held_by_a)
unfolding run str_eq
Held-run_example =
    Held-run intruder held_by_a ide_a (refl, refl)
      ((λ r. ground arith), ((λ r. r), ((λ r. ground arith), tt)))

step-IsValid_example : IsValid (step (on_request_connect true 200000 (some params_b) 256) held_by_a)
step-IsValid_example =
    step-IsValid (on_request_connect true 200000 (some params_b) 256) held_by_a
      (omega arith, omega arith, inl refl)

abbrev quote_message : Bytes
quote_message = codes "device is occupied by \"x\""
