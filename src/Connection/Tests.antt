-- ===== src/Connection/Tests.antt =====
-- Runs of the connection registry, and its theorems at concrete inputs.
use baker_self_hosted_voice.Common.{
  ℕ, suc, String, true, false, ◌≡◌, refl, inl, none, some, [], ◌∷◌, arith, str_dec, ne_of_test,
  Differ, if◌then◌else◌, ◌==◌, ◌≢◌, zero, length, or_else, ◌-◌, ◌≤◌,
}
use baker_self_hosted_voice.Common.StringMap.{get, set, delete}
use baker_self_hosted_voice.Common.StringSet
use baker_self_hosted_voice.Connection.{GatewayConnection, ConnectionManager}
use baker_self_hosted_voice.Connection.Registry.{
  attach, detach, mark_authenticated, find_by_user_id, new_connection, authenticate, get_by_id,
  no_samples, is_the,
}
use baker_self_hosted_voice.Connection.Quality.{
  note_gateway_ping_sent, note_gateway_pong, note_gateway_ping_timeout, answered, timed_out,
  push_gateway_sample, drop,
}
use baker_self_hosted_voice.Connection.Delivery.{send_to, send_all}
use baker_self_hosted_voice.Connection.Index.{
  IsIndexed, mark_authenticated-IsIndexed, detach-IsIndexed, find_by_user_id_after_switch, user_of,
}
use baker_self_hosted_voice.Connection.Identity.{attach_collides}
use baker_self_hosted_voice.Connection.Window.{push_all, push_all-window, outcomes, IsLoss}
use baker_self_hosted_voice.Connection.Sequence.{letters, spent, send_all-letters}

-- The ids that two connections get in a run of few connections.
abbrev conn_id : ℕ → ℕ → String
conn_id now zero = "conn-0"
conn_id now (suc zero) = "conn-1"
conn_id now (suc (suc k)) = "conn-2"

abbrev nobody : ConnectionManager
nobody = record { connections = []; connection_quality = []; user_to_connection_id = [] }

abbrev guest : String → ℕ → GatewayConnection
guest id socket = new_connection id socket none []

abbrev ann : String → ℕ → GatewayConnection
ann id socket = authenticate (guest id socket) "ann" "s1" none []

-- Two connections of one user, of which the second authenticated last, and a guest.
abbrev twice_ann : ConnectionManager
twice_ann = record {
  connections = ("a", ann "a" 1) ∷ ("b", ann "b" 2) ∷ ("g", guest "g" 3) ∷ [];
  connection_quality =
      ("a", record no_samples { pending_gateway_ping_sent_at_ms = some 5 })
      ∷ ("b", no_samples)
      ∷ [];
  user_to_connection_id = ("ann", "b") ∷ [];
}

registry : Unit {0}
unfolding get set delete attach detach mark_authenticated find_by_user_id str_dec
    StringSet.from_list StringSet.add_all
registry = tt

-- An event to send.
abbrev ping : ℕ
ping = 0

delivery : Unit {0}
unfolding get set send_to send_all str_dec
delivery = tt

quality : Unit {0}
unfolding get set str_dec note_gateway_ping_sent note_gateway_pong note_gateway_ping_timeout
    answered timed_out push_gateway_sample
quality = tt

attach_runs : get_by_id (attach conn_id nobody 7 none [] 0).0 "conn-1" ≡ some (guest "conn-1" 7)
unfolding registry
attach_runs = refl

find_runs : find_by_user_id twice_ann "ann" ≡ some (ann "b" 2)
unfolding registry
find_runs = refl

detach_runs : (detach twice_ann "b").user_to_connection_id ≡ []
unfolding registry
detach_runs = refl

-- The older of the two connections does not own the index entry.
detach_old_runs : (detach twice_ann "a").user_to_connection_id ≡ ("ann", "b") ∷ []
unfolding registry
detach_old_runs = refl

pong_runs :
    (note_gateway_pong twice_ann "a" 30).0.connection_quality
    ≡ (
      "a",
      record no_samples {
        gateway_samples = true ∷ [];
        gateway_loss_pct = some 0;
        gateway_rtt_ms = some 25;
        gateway_updated_at_ms = some 30;
      },
    )
      ∷ ("b", no_samples)
      ∷ []
unfolding quality
pong_runs = refl

pong_accepted : (note_gateway_pong twice_ann "a" 30).1 ≡ true
unfolding quality
pong_accepted = refl

send_runs :
    (send_all (λ s. true) ping ("b" ∷ "x" ∷ []) twice_ann).1
    ≡ record { to = "b"; seq = 1; event = ping } ∷ []
unfolding delivery
send_runs = refl

-- What the theorems ask of these inputs.
only_entry : (k v u c : String) → get u ((k, v) ∷ []) ≡ some c → (k ≡ u) × (v ≡ c)
unfolding get
only_entry k v u c e = ground arith

b_is_ann : user_of (get "b" twice_ann.connections) ≡ some "ann"
unfolding get str_dec
b_is_ann = refl

ann_named : Differ "ann" ""
unfolding str_dec
ann_named = ne_of_test "ann" "" refl

twice_ann-IsIndexed : IsIndexed twice_ann
twice_ann-IsIndexed u c e =
    let (user, conn) = only_entry "ann" "b" u c e in rw (← user, ← conn) (b_is_ann, ann_named)

g_is_guest : user_of (get "g" twice_ann.connections) ≡ none
unfolding get str_dec
g_is_guest = refl

bob_named : Differ "bob" ""
unfolding str_dec
bob_named = ne_of_test "bob" "" refl

get_a : get "a" twice_ann.connections ≡ some (ann "a" 1)
unfolding get str_dec
get_a = refl

get_b : get "b" twice_ann.connections ≡ some (ann "b" 2)
unfolding get str_dec
get_b = refl

ann_indexed : get "ann" twice_ann.user_to_connection_id ≡ some "b"
unfolding get str_dec
ann_indexed = refl

a_not_b : Differ "a" "b"
unfolding str_dec
a_not_b = ne_of_test "a" "b" refl

b_named : Differ "b" ""
unfolding str_dec
b_named = ne_of_test "b" "" refl

ann_not_bob : Differ "ann" "bob"
unfolding str_dec
ann_not_bob = ne_of_test "ann" "bob" refl

conn_ids-Differ : Differ "conn-1" "conn-2"
unfolding str_dec
conn_ids-Differ = ne_of_test "conn-1" "conn-2" refl

a_b-Distinct : StringSet.Distinct ("a" ∷ "b" ∷ [])
unfolding StringSet.has str_dec
a_b-Distinct = (refl, (refl, tt))

unknown : (c : String) → get c nobody.connections ≡ none
unfolding get
unknown c = refl

mark_authenticated-IsIndexed_example :
    IsIndexed (mark_authenticated twice_ann "g" "bob" "s2" none []).0
mark_authenticated-IsIndexed_example =
    mark_authenticated-IsIndexed twice_ann "g" "bob" "s2" none [] bob_named (inl g_is_guest)
      twice_ann-IsIndexed

detach-IsIndexed_example :
    ((d : String)
      → get d (detach twice_ann "b").connections
        ≡ (if "b" == d then none else get d twice_ann.connections))
    × ((u : String) → get u (detach twice_ann "b").user_to_connection_id ≢ some "b")
    × ((u : String)
        → get u (detach twice_ann "b").user_to_connection_id ≡ (
            if is_the (get u twice_ann.user_to_connection_id) "b"
            then none
            else get u twice_ann.user_to_connection_id))
    × IsIndexed (detach twice_ann "b")
detach-IsIndexed_example = detach-IsIndexed twice_ann "b" twice_ann-IsIndexed

find_by_user_id_after_switch_example :
    find_by_user_id (mark_authenticated twice_ann "b" "bob" "s2" none []).0 "ann"
    ≡ some (authenticate (ann "b" 2) "bob" "s2" none [])
find_by_user_id_after_switch_example =
    find_by_user_id_after_switch twice_ann "b" "ann" "bob" "s2" none [] (ann "b" 2) get_b
      ann_indexed b_named ann_not_bob

attach_collides_example :
    let m1 = (attach conn_id nobody 1 none [] 0).0 in
    let m2 = (attach conn_id m1 2 none [] 0).0 in
    let m4 = (attach conn_id (detach m2 "conn-1") 3 none [] 0).0 in
    (get "conn-2" m2.connections ≡ some (guest "conn-2" 2))
    × (get "conn-2" m4.connections ≡ some (guest "conn-2" 3))
attach_collides_example =
    attach_collides conn_id none [] nobody 1 2 3 0 tt (unknown "conn-1") (unknown "conn-2")
      conn_ids-Differ

push_all-window_example :
    let q = push_all no_samples ((true, 1) ∷ (false, 2) ∷ []) in
    (q.gateway_samples
      ≡ drop
          (length (outcomes ((true, 1) ∷ (false, 2) ∷ [])) - 20)
          (outcomes ((true, 1) ∷ (false, 2) ∷ [])))
    × IsLoss q.gateway_samples q.gateway_loss_pct
    × (length q.gateway_samples ≤ 20)
    × (or_else q.gateway_loss_pct 0 ≤ 100)
push_all-window_example = push_all-window ((true, 1) ∷ (false, 2) ∷ [])

send_all-letters_example :
    ((send_all (λ s. true) ping ("a" ∷ "b" ∷ []) twice_ann).1
      ≡ letters (λ s. true) ping twice_ann ("a" ∷ "b" ∷ []))
    × ((d : String)
        → get d (send_all (λ s. true) ping ("a" ∷ "b" ∷ []) twice_ann).0.connections
          ≡ spent (StringSet.has d ("a" ∷ "b" ∷ [])) (get d twice_ann.connections))
send_all-letters_example = send_all-letters (λ s. true) ping ("a" ∷ "b" ∷ []) twice_ann a_b-Distinct
