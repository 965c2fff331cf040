-- ===== src/Access/Examples.antt =====
-- The theorems on access rules, applied to a chain of two rules; an address is a number.
use gobetween.Base.{ℕ, ◌≡◌, refl, true, false, none, some, [], ◌∷◌, ◌==◌, ◌=s◌, if◌then◌else◌}
use gobetween.Access.{Net, Access, host, network, allows, parse_rule}
use gobetween.Access.Rules.{Decided, allows-Decided, parse_rule-verb}

abbrev net : Net ℕ ℕ
net = record {
  parse_ip = λ s. if s =s "1" then some 1 else none;
  parse_cidr = λ s. if s =s "0/0" then some 7 else none;
  ip_equal = λ a b. a == b;
  contains = λ n a. n == a;
}

abbrev access : Access ℕ ℕ
access = record {
  allow_default = false;
  rules = record { allow = true; place = host 1 } ∷ record { allow = true; place = network 7 } ∷ [];
}

allows-Decided_example : Decided net false access.rules 7 (allows net access 7)
allows-Decided_example = allows-Decided net access 7

parse_rule-verb_example :
    parse_rule net "deny 0/0" ≡ some (record { allow = false; place = network 7 })
parse_rule-verb_example =
    parse_rule-verb net false "0/0" (some (network 7)) (refl, (refl, (refl, tt))) (refl, refl)
