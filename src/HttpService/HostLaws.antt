-- ===== src/HttpService/HostLaws.antt =====
-- The order and the comparisons of hosts, as a std::set of websites needs them.
use http_cpp.Base.{
  ◌≡◌, arith, ◌↔◌, Text, codes, ◌++◌, Bool, true, false, not, text_eq_iff, to_string, ◌⊎◌,
}
use http_cpp.Base.Order.{text_cmp_eq, text_cmp_gt, text_cmp_trans}
use http_cpp.HttpService.Host.{Host, host_match, host_eq, host_ne, host_lt, print_host}

-- Two hosts are equal by `operator==` exactly when they are the same, and `operator!=` is its
-- negation.
pub host_eq_iff :
    (h other : Host)
    → ((host_eq h other ≡ true) ↔ (h ≡ other)) × (host_ne h other ≡ not (host_eq h other))
unfolding host_eq host_ne
host_eq_iff h other = ground (arith, text_eq_iff h.name other.name)

-- What std::set asks of a comparison, with no two keys of which neither is less but equal ones.
pub record IsStrictOrder (lt : Host → Host → Bool) : Type 0 where
  pub irrefl : (h : Host) → lt h h ≡ false
  pub trans : (g h k : Host) → lt g h ≡ true → lt h k ≡ true → lt g k ≡ true
  pub total : (g h : Host) → lt g h ≡ false → lt h g ≡ false → g ≡ h

-- `operator<` on hosts is a strict order: no host is less than itself, it is transitive, and two
-- hosts of which neither is less are equal.
pub host_lt-IsStrictOrder : IsStrictOrder host_lt
unfolding host_lt
host_lt-IsStrictOrder = record {
  irrefl = λ h. ground (arith, text_cmp_eq h.name h.name);
  trans = λ g h k. ground (arith, text_cmp_trans g.name h.name k.name);
  total = λ g h. ground (arith, text_cmp_eq g.name h.name, text_cmp_gt g.name h.name);
}

-- `match` accepts exactly the name and the name with the port.
pub host_match_iff :
    (h : Host) (t : Text) → (host_match h t ≡ true) ↔ ((t ≡ h.name) ⊎ (t ≡ print_host h))
unfolding host_match print_host
host_match_iff h t =
    ground (arith, text_eq_iff t h.name, text_eq_iff t (h.name ++ codes ":" ++ to_string h.port))
