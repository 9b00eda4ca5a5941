-- ===== src/Network/Tests.antt =====
-- The firewall rules on a host that keeps nothing else.
use bonded.Network.Rules.{
  Rule, Os, NetworkRuntime, masquerade_rule, ensure_iptables_rules, drop_runtime,
}
use bonded.Network.Restore.{IsOs, CanDelete, has_rule, remove_first}
use bonded.Network.Dropped.{runtime, ensure_iptables_rules-drop_runtime}
use bonded.Network.{prefix_to_netmask, cidr_network}
use bonded.Prelude.{
  ℕ, ◌≡◌, refl, true, false, some, List, [], ◌∷◌, ◌++◌, Text, ascii, if◌then◌else◌, arith, Option,
  Bool, ◌==◌, get_or,
}

-- `-C` and `-A` by their letters; anything else deletes.
abbrev act : ℕ → Rule → List Rule → Option Bool × List Rule
act letter rule rules =
    if letter == 67
    then (some (has_rule rule rules), rules)
    else if letter == 65
    then (some true, rules ++ rule ∷ [])
    else (some true, remove_first rule rules)

abbrev second_letter : Text → ℕ
second_letter action = get_or action 1 0

abbrev host : Os (List Rule)
host = record {
  iptables = λ action rule rules. act (second_letter action) rule rules;
  write_ip_forward = λ value rules. rules;
  ifconfig_down = λ name rules. rules;
}

host-IsOs : IsOs host
host-IsOs = record {
  rules = λ s. s;
  checks = λ r s b h. ground arith;
  check_keeps = λ r s. refl;
  adds = λ r s h. refl;
  add_fails = λ r s h. ground arith;
  add_missing = λ r s h. ground arith;
  deletes = λ r s h. refl;
  forward_keeps = λ v s. refl;
  down_keeps = λ t s. refl;
}

host-CanDelete : CanDelete host host-IsOs
host-CanDelete = record { launches = λ r s. (has_rule r s, refl); succeeds = λ r s h. refl }

-- The masquerade rule is there already.
abbrev before : List Rule
before = masquerade_rule (ascii "10.8.0.0/24") (ascii "eth0") ∷ []

abbrev first_runtime : NetworkRuntime
first_runtime =
    runtime (ascii "tun0") (some (ascii "0")) (ascii "10.8.0.0/24") (ascii "eth0") false false false

ensure_iptables_rules-drop_runtime_example :
    let (result, rt, s') =
      ensure_iptables_rules host (ascii "10.8.0.0/24") (ascii "eth0") first_runtime before in
    host-IsOs.rules (drop_runtime host rt s') ≡ host-IsOs.rules before
ensure_iptables_rules-drop_runtime_example =
    ensure_iptables_rules-drop_runtime host host-IsOs host-CanDelete (ascii "tun0")
      (some (ascii "0")) (ascii "10.8.0.0/24") (ascii "eth0") before

class_c : prefix_to_netmask 24 ≡ record { a = 255; b = 255; c = 255; d = 0 }
unfolding prefix_to_netmask
class_c = refl

subnet_of :
    cidr_network (record { a = 100; b = 64; c = 3; d = 9 }) 16
    ≡ record { a = 100; b = 64; c = 0; d = 0 }
unfolding cidr_network
subnet_of = refl
