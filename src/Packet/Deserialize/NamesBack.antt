-- ===== src/Packet/Deserialize/NamesBack.antt =====
-- net/json_packet.cc: the names that the tables give are found again.
use cheaproute.Prelude.{
  ℕ, zero, suc, ◌≤◌, ◌≡◌, refl, ◌∙◌, sym, ap, Bool, true, false, Option, none, some, List, [], ◌∷◌,
  arith, ◌==◌, ==_iff, ltb, length, get_or, inl, inr, Bool-cases, ltb→lt, ltb_false→le,
}
use cheaproute.Prelude.Table.{passes, passes-at}
use cheaproute.Packet.Names.{
  Name, name_at, protocol_names, icmp_type_names, icmp_unreachable_names, icmp_redirect_names,
  icmp_bad_header_names, tcp_options,
}
use cheaproute.Packet.Deserialize.Tables.{text_eq, find_from, lookup_name}

-- The tables of values with names.
pub data Table : Type 0 where
  protocols : Table
  icmp_types : Table
  unreachable_codes : Table
  redirect_codes : Table
  bad_header_codes : Table
  option_kinds : Table

abbrev pub names_of : Table → List Name
names_of protocols = protocol_names
names_of icmp_types = icmp_type_names
names_of unreachable_codes = icmp_unreachable_names
names_of redirect_codes = icmp_redirect_names
names_of bad_header_codes = icmp_bad_header_names
names_of option_kinds = tcp_options

is_found : ℕ → Option ℕ → Bool
is_found i none = false
is_found i (some j) = j == i

comes_back : List Name → ℕ → Name → Bool
comes_back names i none = true
comes_back names i (some str) = is_found i (lookup_name names str)

found : (i : ℕ) (o : Option ℕ) → is_found i o ≡ true → o ≡ some i
unfolding is_found
found i none h = cc
found i (some j) h = ap (λ k. some k) ((==_iff j i).0 h)

beyond : (names : List Name) (i : ℕ) → length names ≤ i → get_or names i none ≡ none
beyond [] i h = refl
beyond (name ∷ names) zero h = absurd (omega arith)
beyond (name ∷ names) (suc i) h = beyond names i (omega arith)

all_come_back :
    (table : Table)
    → passes
        (λ i. comes_back (names_of table) i (name_at (names_of table) i))
        (length (names_of table))
      ≡ true
unfolding passes comes_back is_found lookup_name find_from text_eq name_at
all_come_back protocols = refl
all_come_back icmp_types = refl
all_come_back unreachable_codes = refl
all_come_back redirect_codes = refl
all_come_back bad_header_codes = refl
all_come_back option_kinds = refl

-- The name that a table gives a value is found again as that value, in the table of protocols, in
-- those of ICMP types and codes and in that of TCP option kinds.
pub lookup_name-name_at :
    (table : Table) (i : ℕ) (str : List ℕ)
    → name_at (names_of table) i ≡ some str
    → lookup_name (names_of table) str ≡ some i
unfolding comes_back name_at
lookup_name-name_at table i str h = elim (Bool-cases (ltb i (length (names_of table)))) [
  | inl e ↦ found i (lookup_name (names_of table) str) (
      sym (ap (comes_back (names_of table) i) h)
      ∙ passes-at _ (length (names_of table)) (all_come_back table) i
          (ltb→lt i (length (names_of table)) e))
  | inr e ↦
      absurd
        (missing (sym h ∙ beyond (names_of table) i (ltb_false→le i (length (names_of table)) e)))
]
  where
    missing : some str ≡ none → ⊥
    missing e = cc
