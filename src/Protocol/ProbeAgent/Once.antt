-- ===== src/Protocol/ProbeAgent/Once.antt =====
-- internal/protocol/probe.go: a probe ID is consumed once in its replay window.
use anti_nat_agent.Base.{
  ℕ, ◌+◌, ◌<◌, ◌≡◌, refl, ap, Bool, true, false, List, Bytes, inl, inr, Option-cases, All,
}
use anti_nat_agent.Protocol.Platform.{Platform}
use anti_nat_agent.Protocol.Frames.{ProbeArm, ProviderFrame, validate_arm}
use anti_nat_agent.Protocol.ProbeAgent.{
  ProbeAgent, handle_probe_ingress, arm_probe, probe_replay_window, sweep, Call, serve_all,
  ArmAnswer, armed_with, arm_refused,
}
use anti_nat_agent.Protocol.ProbeAgent.Consumption.{
  IsAgent, Consumed, time, same-refused, ingress-refused, serve_all-Consumed, accepted-Consumed,
  sweep-Consumed,
}

-- After a frame is accepted, no frame of the same probe ID is accepted after any calls made
-- within five minutes of it, whatever was armed meanwhile.
pub accepted_once :
    (p : Platform) (s : ProbeAgent) (frame : ProviderFrame) (source_ip : Bytes) (now : ℕ)
    (calls : List Call) (again : ProviderFrame) (again_ip : Bytes) (later : ℕ)
    → IsAgent s
    → (handle_probe_ingress p s frame source_ip now).1 ≡ true
    → All (λ c. time c < now + probe_replay_window) calls
    → again.probe_id ≡ frame.probe_id
    → (handle_probe_ingress p
        (serve_all p (handle_probe_ingress p s frame source_ip now).0 calls)
        again
        again_ip
        later).1
      ≡ false
accepted_once p s frame source_ip now calls again again_ip later v f h same =
    ap (λ r. r.1)
      (ingress-refused p frame.probe_id (now + probe_replay_window)
        (serve_all p (handle_probe_ingress p s frame source_ip now).0 calls) again again_ip later
        same
        (serve_all-Consumed p frame.probe_id (now + probe_replay_window)
          (handle_probe_ingress p s frame source_ip now).0 calls h
          (accepted-Consumed p s frame source_ip now v f)))

abbrev pub is_refused : ArmAnswer → Bool
is_refused (armed_with a) = false
is_refused (arm_refused e) = true

-- Within five minutes of an accepted frame, and after any calls in between, no arm of its probe ID
-- is taken, whatever its material.
pub consumed-rearm :
    (p : Platform) (s : ProbeAgent) (frame : ProviderFrame) (source_ip : Bytes) (now : ℕ)
    (calls : List Call) (arm : ProbeArm) (later : ℕ)
    → IsAgent s
    → (handle_probe_ingress p s frame source_ip now).1 ≡ true
    → All (λ c. time c < now + probe_replay_window) calls
    → arm.probe_id ≡ frame.probe_id
    → later < now + probe_replay_window
    → is_refused
        (arm_probe p
          (serve_all p (handle_probe_ingress p s frame source_ip now).0 calls)
          arm
          later).1
      ≡ true
unfolding arm_probe
consumed-rearm p s frame source_ip now calls arm later v f h same soon =
    let k : Bytes = frame.probe_id in
    let e : ℕ = now + probe_replay_window in
    let t : ProbeAgent = serve_all p (handle_probe_ingress p s frame source_ip now).0 calls in
    let c : Consumed k e t =
      serve_all-Consumed p k e (handle_probe_ingress p s frame source_ip now).0 calls h
        (accepted-Consumed p s frame source_ip now v f) in
    elim (Option-cases (validate_arm p arm)) [
      | inr (x, g) ↦ rw g refl
      | inl g ↦ rw g (
          ap (λ r. is_refused r.1)
            (same-refused p k e (sweep later t) arm later same soon
              (sweep-Consumed k e later t soon c)))
    ]
