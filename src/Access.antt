-- ===== src/Access.antt =====
-- internal/shared/netutil/ipaccess.go. Addresses and networks are those of the package net, whose
-- parsers and containment are arguments.
use drip_ex.Base.{
  if◌then◌else◌, any, Bytes, codes, is_empty, trim_space, contains_byte, ◌≡◌, refl, subst, ◌↔◌, ◌⊎◌,
  inl, inr, Bool, true, false, not, ◌||◌, Option, none, some, List, [], ◌∷◌, ◌++◌, arith,
}

module _ {Ip Net : Type 0} (parse_ip : Bytes → Option Ip) (is_v4 : Ip → Bool)
    (parse_cidr : Bytes → Option Net) (contains : Net → Ip → Bool) where
  pub record IpAccessChecker : Type 0 where
    pub allow_nets : List Net
    pub deny_nets : List Net

  -- A single address stands for the network of it alone.
  abbrev pub widened : Bytes → Option Ip → Bytes
  widened cidr none = cidr
  widened cidr (some ip) = cidr ++ (if is_v4 ip then codes "/32" else codes "/128")

  unfoldable pub read_rule : Bytes → Option Net
  read_rule rule =
      let cidr = trim_space rule in
      if is_empty cidr
      then none
      else if contains_byte b'/' cidr
      then parse_cidr cidr
      else parse_cidr (widened cidr (parse_ip cidr))

  abbrev in_front_of_nets : Option Net → List Net → List Net
  in_front_of_nets none nets = nets
  in_front_of_nets (some net) nets = net ∷ nets

  -- Rules that do not parse are passed over.
  unfoldable pub read_rules : List Bytes → List Net
  unfolding read_rule
  read_rules [] = []
  read_rules (rule ∷ rules) = in_front_of_nets (read_rule rule) (read_rules rules)

  unfoldable pub new_ip_access_checker : List Bytes → List Bytes → IpAccessChecker
  new_ip_access_checker allow_cidrs deny_ips = record {
    allow_nets = read_rules allow_cidrs;
    deny_nets = read_rules deny_ips;
  }

  abbrev is_nil : List Net → Bool
  is_nil [] = true
  is_nil (net ∷ nets) = false

  -- `c.hasAllow` and `c.hasDeny`, negated.
  unfoldable pub has_rules : IpAccessChecker → Bool
  has_rules c = not (is_nil c.allow_nets) || not (is_nil c.deny_nets)

  abbrev pub checked : IpAccessChecker → Option Ip → Bool
  checked c none = false
  checked c (some ip) =
      if any (λ net. contains net ip) c.deny_nets
      then false
      else if not (is_nil c.allow_nets)
      then any (λ net. contains net ip) c.allow_nets
      else true

  unfoldable pub is_allowed : IpAccessChecker → Bytes → Bool
  unfolding has_rules
  is_allowed c ip = if not (has_rules c) then true else checked c (parse_ip ip)

  -- The rules that parse to a network.
  abbrev pub Reads : List Bytes → Net → Type 0
  Reads [] net = ⊥
  Reads (rule ∷ rules) net = (read_rule rule ≡ some net) ⊎ Reads rules net

  -- Some network of the rules has the address.
  abbrev pub Covers : List Bytes → Ip → Type 0
  Covers rules ip = (net : Net) × Reads rules net × (contains net ip ≡ true)

  front_Covers :
      (rule : Bytes) (rules : List Bytes) (ip : Ip) (found : Option Net)
      → read_rule rule ≡ found
      → (any (λ net. contains net ip) (read_rules rules) ≡ true) ↔ Covers rules ip
      → (any (λ net. contains net ip) (in_front_of_nets found (read_rules rules)) ≡ true)
        ↔ Covers (rule ∷ rules) ip
  front_Covers rule rules ip none e rest =
      (λ h. let (net, reads, has) = rest.0 h in (net, inr reads, has), λ covers. later covers)
    where
      later : Covers (rule ∷ rules) ip → any (λ net. contains net ip) (read_rules rules) ≡ true
      later (net, inl reads, has) = cc
      later (net, inr reads, has) = rest.1 (net, reads, has)
  front_Covers rule rules ip (some net) e rest =
      (λ h. first (contains net ip) refl h, λ covers. later covers)
    where
      first :
          (has : Bool)
          → contains net ip ≡ has
          → (has || any (λ n. contains n ip) (read_rules rules)) ≡ true
          → Covers (rule ∷ rules) ip
      first true has h = (net, inl e, has)
      first false has h = let (n, reads, c) = rest.0 h in (n, inr reads, c)

      later :
          Covers (rule ∷ rules) ip
          → (contains net ip || any (λ n. contains n ip) (read_rules rules)) ≡ true
      later (n, inl reads, has) =
          let same : n ≡ net = cc in
          let here : contains net ip ≡ true = subst (λ k. contains k ip ≡ true) same has in
          rw here refl
      later (n, inr reads, has) = let rest_has = rest.1 (n, reads, has) in ground arith

  read_rules-Covers :
      (rules : List Bytes) (ip : Ip)
      → (any (λ net. contains net ip) (read_rules rules) ≡ true) ↔ Covers rules ip
  unfolding read_rules
  read_rules-Covers [] ip = (λ h. cc, λ (net, reads, has). absurd reads)
  read_rules-Covers (rule ∷ rules) ip =
      front_Covers rule rules ip (read_rule rule) refl (read_rules-Covers rules ip)

  -- No rule parses.
  abbrev pub IsVoid : List Bytes → Type 0
  IsVoid rules = (net : Net) → ¬ Reads rules net

  front_IsVoid :
      (rule : Bytes) (rules : List Bytes) (found : Option Net)
      → read_rule rule ≡ found
      → (is_nil (read_rules rules) ≡ true) ↔ IsVoid rules
      → (is_nil (in_front_of_nets found (read_rules rules)) ≡ true) ↔ IsVoid (rule ∷ rules)
  front_IsVoid rule rules none e rest = (
    λ h net reads. none_reads net (rest.0 h net) reads,
    λ v. rest.1 (λ net reads. v net (inr reads)),
  )
    where
      none_reads : (net : Net) → ¬ Reads rules net → ¬ Reads (rule ∷ rules) net
      none_reads net no_later (inl reads) = cc
      none_reads net no_later (inr reads) = no_later reads
  front_IsVoid rule rules (some net) e rest = (λ h. cc, λ v. absurd (v net (inl e)))

  read_rules-IsVoid : (rules : List Bytes) → (is_nil (read_rules rules) ≡ true) ↔ IsVoid rules
  unfolding read_rules
  read_rules-IsVoid [] = (λ h net reads. reads, λ v. refl)
  read_rules-IsVoid (rule ∷ rules) =
      front_IsVoid rule rules (read_rule rule) refl (read_rules-IsVoid rules)

  -- The rules let the address in.
  abbrev pub Admits : List Bytes → List Bytes → Ip → Type 0
  Admits allow deny ip = (¬ Covers deny ip) × (IsVoid allow ⊎ Covers allow ip)

  module _ (allow deny : List Bytes) where
    abbrev checker : IpAccessChecker
    checker = record { allow_nets = read_rules allow; deny_nets = read_rules deny }

    Admits-iff : (ip : Ip) → (checked checker (some ip) ≡ true) ↔ Admits allow deny ip
    Admits-iff ip =
        let d = read_rules-Covers deny ip in
        let a = read_rules-Covers allow ip in
        let v = read_rules-IsVoid allow in
        by_tests (any (λ net. contains net ip) (read_rules deny)) (is_nil (read_rules allow))
          (any (λ net. contains net ip) (read_rules allow)) d v a
      where
        by_tests :
            (denied void allowed : Bool)
            → (denied ≡ true) ↔ Covers deny ip
            → (void ≡ true) ↔ IsVoid allow
            → (allowed ≡ true) ↔ Covers allow ip
            → ((if denied then false else if not void then allowed else true) ≡ true)
              ↔ Admits allow deny ip
        by_tests true void allowed d v a =
            (λ h. cc, λ (no_deny, some_allow). absurd (no_deny (d.0 refl)))
        by_tests false true allowed d v a = (λ h. (λ c. cc (d.1 c), inl (v.0 refl)), λ h. refl)
        by_tests false false true d v a = (λ h. (λ c. cc (d.1 c), inr (a.0 refl)), λ h. refl)
        by_tests false false false d v a = (
          λ h. cc,
          λ (no_deny, ways). elim ways [
            | inl none_parses ↦ v.1 none_parses
            | inr covered ↦ a.1 covered
          ],
        )

    parsed_iff :
        (found : Option Ip)
        → (checked checker found ≡ true) ↔ ((ip : Ip) × (found ≡ some ip) × Admits allow deny ip)
    parsed_iff none = (λ h. cc, λ (ip, e, w). cc)
    parsed_iff (some ip) = (
      λ h. (ip, refl, (Admits-iff ip).0 h),
      λ (other, e, w).
          let same : other ≡ ip = cc in (Admits-iff ip).1 (subst (Admits allow deny) same w),
    )

    -- A text is let in if and only if no rule of either list parses to a network, or if it parses to
    -- an address that no network of the deny list has, and that a network of the allow list has,
    -- unless no rule of that list parses.
    pub is_allowed_iff :
        (s : Bytes)
        → (is_allowed (new_ip_access_checker allow deny) s ≡ true) ↔ (
            (IsVoid allow × IsVoid deny)
            ⊎ ((ip : Ip) × (parse_ip s ≡ some ip) × Admits allow deny ip))
    unfolding is_allowed new_ip_access_checker has_rules
    is_allowed_iff s =
        by_rules (is_nil (read_rules allow)) (is_nil (read_rules deny)) (read_rules-IsVoid allow)
          (read_rules-IsVoid deny)
      where
        by_rules :
            (no_allow no_deny : Bool)
            → (no_allow ≡ true) ↔ IsVoid allow
            → (no_deny ≡ true) ↔ IsVoid deny
            → ((if not (not no_allow || not no_deny) then true else checked checker (parse_ip s))
                ≡ true)
              ↔ ((IsVoid allow × IsVoid deny)
                  ⊎ ((ip : Ip) × (parse_ip s ≡ some ip) × Admits allow deny ip))
        by_rules true true a d = (λ h. inl (a.0 refl, d.0 refl), λ w. refl)
        by_rules true false a d = (
          λ h. inr ((parsed_iff (parse_ip s)).0 h),
          λ w. elim w [
            | inl (no_a, no_d) ↦ let wrong = d.1 no_d in cc
            | inr found ↦ (parsed_iff (parse_ip s)).1 found
          ],
        )
        by_rules false no_deny a d = (
          λ h. inr ((parsed_iff (parse_ip s)).0 h),
          λ w. elim w [
            | inl (no_a, no_d) ↦ let wrong = a.1 no_a in cc
            | inr found ↦ (parsed_iff (parse_ip s)).1 found
          ],
        )
