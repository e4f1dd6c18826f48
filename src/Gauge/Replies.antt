-- ===== src/Gauge/Replies.antt =====
-- What the fake gauge answers, and what the host makes of it.
use Prim.Native.String
use infinity_wasm_bridge.Prelude.{
  ℕ, String, ◌≡◌, refl, ◌≢◌, Bool, true, Option, none, some, [], ◌∷◌, ap, if◌then◌else◌, string_eq,
  ◌==◌, Bool-cases, inl, inr, unwrap_or,
}
use infinity_wasm_bridge.Wire.Json.{Json}
use infinity_wasm_bridge.Wire.Msg.{CmdPayload, AckPayload, cmd, ack, ok_ack, err_ack}
use infinity_wasm_bridge.Wire.Decode.{◌>>=◌, from_json}
use infinity_wasm_bridge.Wire.RoundTrip.{drop_null, from_json-to_json}
use infinity_wasm_bridge.Prelude.HashMap
use infinity_wasm_bridge.Host.Runtime.{Runtime, value}
use infinity_wasm_bridge.Host.Hub.{Hub, touch_client}
use infinity_wasm_bridge.Host.Server.{handle_message, handle_text}
use infinity_wasm_bridge.Host.Slots.{HasSlots}
use infinity_wasm_bridge.Host.Answered.{dispatch_ack-value}
use infinity_wasm_bridge.Gauge.Fake.{
  text, handle_command, sent, reply, read_frames, mock_equipment_entries,
}

module _ (j : Json) where
  open j use {Value, Text, get, as_u64, u64, array, object}

  -- The commands that the gauge knows.
  abbrev pub is_known : Option String → Bool
  is_known none = true
  is_known (some name) = if name == "equip_query" then true else name == "equip_cmd"

  handle_command-ack :
      (id : String) (name : Option String) (payload : Value)
      → name ≢ some "slow_command"
      → (a : AckPayload Value) × (handle_command j id name payload ≡ some (ack a))
        × (a.id ≡ id)
        × (a.is_ok ≡ is_known name)
  unfolding handle_command
  handle_command-ack id none payload prompt = (ok_ack id payload, refl, refl, refl)
  handle_command-ack id (some name) payload prompt = elim (Bool-cases (name == "equip_query")) [
    | inl query ↦ (
      ok_ack id (object (("entries", array (mock_equipment_entries j)) ∷ [])),
      rw (handle_command, query),
      refl,
      rw query,
    )
    | inr no_query ↦ elim (Bool-cases (name == "equip_cmd")) [
      | inl toggle ↦ (
        ok_ack id (
            object (
              ("entries", array (mock_equipment_entries j))
              ∷ ("toggled", u64 (unwrap_or (get payload "equipIdx" >>= as_u64) 0))
              ∷ [])),
        rw (handle_command, no_query, toggle),
        refl,
        rw (no_query, toggle),
      )
      | inr no_toggle ↦ elim (Bool-cases (name == "slow_command")) [
        | inl slow ↦ absurd (prompt (ap some ((string_eq.equal_iff name "slow_command").0 slow)))
        | inr other_name ↦ (
          err_ack id (String.◌++◌ "UNKNOWN_COMMAND: " name),
          rw (handle_command, no_query, no_toggle, other_name),
          refl,
          rw (no_query, no_toggle),
        )
      ]
    ]
  ]

  -- A command is answered by one text, which reads as an ack with the id of the command that is
  -- positive exactly when the command has no name or a known one; only `slow_command` is left
  -- without an answer.
  pub reply-cmd :
      (c : CmdPayload Value)
      → c.name ≢ some "slow_command"
      → (answer : Text) × (a : AckPayload Value) × (reply j (cmd c) ≡ answer ∷ [])
        × (from_json j answer ≡ some (ack a))
        × (a.id ≡ c.id)
        × (a.is_ok ≡ is_known c.name)
  unfolding reply
  reply-cmd c prompt =
      let (a, made, same, good) = handle_command-ack c.id c.name c.payload prompt in
      let (answer, printed, reads) = from_json-to_json j (ack a) tt in
      let read_as : AckPayload Value = record a { response = drop_null j a.response } in
      (answer, read_as, rw (made, sent, printed), reads, same, good)

  module _ (r : Runtime j) (client_id now : ℕ) where
    -- The round trip of a command other than `slow_command`: the gauge reads it and sends one text,
    -- and once the host has read that, the task that waits for the command has an ack of its id,
    -- positive exactly when the command has no name or a known one. The host's hub is one whose
    -- pending commands wait on channels of their own.
    pub poll-read_frames :
        (raw : Text) (c : CmdPayload Value) (h : Hub j r) (s : r.Oneshot)
        → from_json j raw ≡ some (cmd c)
        → c.name ≢ some "slow_command"
        → HasSlots j r h
        → HashMap.get c.id h.pending ≡ some s
        → (answer : Text) × (a : AckPayload Value) × (read_frames j (some (text raw) ∷ [])
            ≡ answer ∷ [])
          × (r.poll s (handle_text j r client_id now answer h).acks ≡ value a)
          × (a.id ≡ c.id)
          × (a.is_ok ≡ is_known c.name)
    unfolding read_frames handle_text handle_message touch_client
    poll-read_frames raw c h s parsed prompt v found =
        let (answer, a, replies, reads, same, good) = reply-cmd c prompt in
        let touched = touch_client j r client_id now h in
        (
          answer,
          a,
          rw (parsed, read_frames, replies),
          rw (reads, handle_text, handle_message)
              (dispatch_ack-value j r s a touched (rw same found) (v.waits c.id s found)),
          same,
          good,
        )
