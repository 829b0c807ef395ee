-- ===== src/Config/Server/Servable.antt =====
-- What the validation of pkg/config/config.go promises of a server's configuration.
use drip_ex.Base.{
  ◌∷◌, refl, str_eq_iff, ℕ, ◌≤◌, Bool-cases, Bytes, codes, str_eq, is_empty, is_empty_ne,
  ne_is_empty, to_lower, trim_space, contains_byte, >>=-eq-ok, ℤ, ltb_ℤ, ok, pos, negsuc, ◌≡◌, ◌≢◌,
  ◌↔◌, ◌⊎◌, inl, inr, true, false, [], arith,
}
use drip_ex.Config.Server.{
  ServerConfig, TlsMode, plain, manual, acme_dns, is_out_of_ports, resolve_tls_mode, check_tls,
  is_zero, check_addresses, check_panel, validate,
}

-- A number from 1 to 65535.
abbrev pub IsPort : ℤ → Type 0
IsPort n = (p : ℕ) × (n ≡ pos p) × (1 ≤ p) × (p ≤ 65535)

abbrev pub IsNatural : ℤ → Type 0
IsNatural n = (k : ℕ) × (n ≡ pos k)

-- The mode is written out, in any case and with spaces around.
abbrev pub Names : ServerConfig → Bytes → Type 0
Names c mode = (c.tls_mode ≢ []) × (to_lower (trim_space c.tls_mode) ≡ mode)

-- No mode is written out, and no provider of DNS asks for certificates.
abbrev pub LeavesOpen : ServerConfig → Type 0
LeavesOpen c = (c.tls_mode ≡ []) × (c.acme.dns_provider ≡ [])

-- The server serves without TLS.
abbrev pub IsPlain : ServerConfig → Type 0
IsPlain c =
    Names c (codes "none")
    ⊎ (LeavesOpen c × (c.tls_enabled ≡ false) × ((c.tls_cert_file ≡ []) ⊎ (c.tls_key_file ≡ [])))

-- The server serves with a certificate and a key that it is given.
abbrev pub IsManual : ServerConfig → Type 0
IsManual c =
    (Names c (codes "manual") ⊎ LeavesOpen c) × (c.tls_cert_file ≢ []) × (c.tls_key_file ≢ [])

-- The server has its certificates made, and can prove by DNS that it may.
abbrev pub IsAcme : ServerConfig → Type 0
IsAcme c =
    (Names c (codes "acme") ⊎ (c.tls_mode ≡ []))
    × (c.acme.dns_provider ≢ [])
    × (c.acme.dns_api_token ≢ [])
    × IsNatural c.acme.propagation_timeout_seconds

-- What a server with this configuration can rely on.
pub record IsServable (c : ServerConfig) : Type 0 where
  pub port : IsPort c.port
  pub shown : (c.public_port ≡ pos 0) ⊎ IsPort c.public_port
  pub domain : c.domain ≢ []
  pub bare : contains_byte b':' c.domain ≡ false
  pub tunnel_bare : contains_byte b':' c.tunnel_domain ≡ false
  pub lowest : IsPort c.tcp_port_min
  pub range : ltb_ℤ c.tcp_port_min c.tcp_port_max ≡ true
  pub highest : IsPort c.tcp_port_max
  pub tls : IsPlain c ⊎ IsManual c ⊎ IsAcme c
  pub panel : c.admin_address ≢ [] → c.db_path ≢ []
  pub published : c.admin_public ≡ true → c.admin_address ≢ []
  pub reserved : c.reservations_only ≡ true → c.db_path ≢ []
  pub credentials : c.require_auth ≡ true → (c.db_path ≢ []) ⊎ (c.auth_token ≢ [])
  pub body : IsNatural c.max_request_body_bytes
  pub hours : IsNatural c.admin_session_hours

is_out_of_ports_iff : (n : ℤ) → (is_out_of_ports n ≡ false) ↔ IsPort n
unfolding is_out_of_ports
is_out_of_ports_iff (pos n) =
    (λ e. (n, refl, ground arith, ground arith), λ (p, e, lo, hi). ground arith)
is_out_of_ports_iff (negsuc n) = (λ e. absurd (ground arith), λ (p, e, lo, hi). cc)

ltb_ℤ_iff : (n : ℤ) → (ltb_ℤ n (pos 0) ≡ false) ↔ IsNatural n
ltb_ℤ_iff (pos n) = (λ e. (n, refl), λ h. ground arith)
ltb_ℤ_iff (negsuc n) = (λ e. absurd (ground arith), λ (k, e). cc)

-- The mode that is settled on.
abbrev Settled : ServerConfig → TlsMode → Type 0
Settled c plain =
    Names c (codes "none")
    ⊎ (LeavesOpen c × (c.tls_enabled ≡ false) × ((c.tls_cert_file ≡ []) ⊎ (c.tls_key_file ≡ [])))
Settled c manual =
    Names c (codes "manual")
    ⊎ (LeavesOpen c × ((c.tls_enabled ≡ true) ⊎ ((c.tls_cert_file ≢ []) × (c.tls_key_file ≢ []))))
Settled c acme_dns = Names c (codes "acme") ⊎ ((c.tls_mode ≡ []) × (c.acme.dns_provider ≢ []))

validate_parts :
    (c : ServerConfig)
    → validate c ≡ ok tt
    → (check_addresses c ≡ ok tt)
      × ((m : TlsMode) × (resolve_tls_mode c ≡ ok m) × (check_tls c m ≡ ok tt))
      × (check_panel c ≡ ok tt)
unfolding validate
validate_parts c e =
    let (_, addresses, rest) = >>=-eq-ok (check_addresses c) _ e in
    let (m, mode, rest') = >>=-eq-ok (resolve_tls_mode c) _ rest in
    let (_, tls, panel) = >>=-eq-ok (check_tls c m) _ rest' in (addresses, (m, mode, tls), panel)

is_zero_iff : (n : ℤ) → (is_zero n ≡ true) ↔ (n ≡ pos 0)
is_zero_iff (pos n) = ground arith
is_zero_iff (negsuc n) = ground arith

nil_if : (s : Bytes) → is_empty s ≡ true → s ≡ []
nil_if [] e = refl
nil_if (b ∷ s) e = cc

module _ (c : ServerConfig) where
  addresses_iff : (check_addresses c ≡ ok tt) ↔ (
      (is_out_of_ports c.port ≡ false)
      × ((is_zero c.public_port ≡ true) ⊎ (is_out_of_ports c.public_port ≡ false))
      × (is_empty c.domain ≡ false)
      × (contains_byte b':' c.domain ≡ false)
      × (contains_byte b':' c.tunnel_domain ≡ false)
      × (is_out_of_ports c.tcp_port_min ≡ false)
      × (is_out_of_ports c.tcp_port_max ≡ false)
      × (ltb_ℤ c.tcp_port_min c.tcp_port_max ≡ true))
  unfolding check_addresses
  addresses_iff = (λ e. ground arith, λ h. ground arith)

  named_iff :
      (mode : Bytes)
      → (is_empty c.tls_mode ≡ false) × (str_eq (to_lower (trim_space c.tls_mode)) mode ≡ true)
        ↔ Names c mode
  named_iff mode = (
    λ h. (is_empty_ne c.tls_mode h.0, (str_eq_iff _ mode).0 h.1),
    λ h. (ne_is_empty c.tls_mode h.0, (str_eq_iff _ mode).1 h.1),
  )

  resolve-Settled : (m : TlsMode) → resolve_tls_mode c ≡ ok m → Settled c m
  unfolding resolve_tls_mode
  resolve-Settled plain e = elim (Bool-cases (is_empty c.tls_mode)) [
    | inl bare_mode ↦ inr (
      (nil_if c.tls_mode bare_mode, nil_if c.acme.dns_provider (ground arith)),
      ground arith,
      elim (Bool-cases (is_empty c.tls_cert_file)) [
        | inl none_given ↦ inl (nil_if c.tls_cert_file none_given)
        | inr given ↦ inr (nil_if c.tls_key_file (ground arith))
      ],
    )
    | inr named ↦ inl ((named_iff (codes "none")).0 (named, ground arith))
  ]
  resolve-Settled manual e = elim (Bool-cases (is_empty c.tls_mode)) [
    | inl bare_mode ↦ inr (
      (nil_if c.tls_mode bare_mode, nil_if c.acme.dns_provider (ground arith)),
      elim (Bool-cases c.tls_enabled) [
        | inl on ↦ inl on
        | inr off ↦
            inr (
              is_empty_ne c.tls_cert_file (ground arith),
              is_empty_ne c.tls_key_file (ground arith),
            )
      ],
    )
    | inr named ↦ inl ((named_iff (codes "manual")).0 (named, ground arith))
  ]
  resolve-Settled acme_dns e = elim (Bool-cases (is_empty c.tls_mode)) [
    | inl bare_mode ↦
        inr (nil_if c.tls_mode bare_mode, is_empty_ne c.acme.dns_provider (ground arith))
    | inr named ↦ inl ((named_iff (codes "acme")).0 (named, ground arith))
  ]

  Settled-resolve : (m : TlsMode) → Settled c m → resolve_tls_mode c ≡ ok m
  unfolding resolve_tls_mode str_eq
  Settled-resolve plain (inl (ne, e)) = rw (ne_is_empty c.tls_mode ne, e) refl
  Settled-resolve plain (inr ((e, d), off, files)) =
      rw (e, d, off) (elim files [ inl e' ↦ rw e' refl | inr e' ↦ rw e' (ground arith) ])
  Settled-resolve manual (inl (ne, e)) = rw (ne_is_empty c.tls_mode ne, e) refl
  Settled-resolve manual (inr ((e, d), given)) =
      rw (e, d)
        (elim given [
          | inl on ↦ rw on refl
          | inr (cert, key) ↦
              rw (ne_is_empty c.tls_cert_file cert, ne_is_empty c.tls_key_file key) (ground arith)
        ])
  Settled-resolve acme_dns (inl (ne, e)) = rw (ne_is_empty c.tls_mode ne, e) refl
  Settled-resolve acme_dns (inr (e, d)) = rw (e, ne_is_empty c.acme.dns_provider d) refl

  -- The mode that is settled on, with what it needs.
  tls_iff :
      ((m : TlsMode) × (resolve_tls_mode c ≡ ok m) × (check_tls c m ≡ ok tt))
      ↔ (IsPlain c ⊎ IsManual c ⊎ IsAcme c)
  tls_iff = (λ (m, e, h). needs m (resolve-Settled m e) h, back)
    where
      needs :
          (m : TlsMode) → Settled c m → check_tls c m ≡ ok tt → IsPlain c ⊎ IsManual c ⊎ IsAcme c
      needs plain settled h = inl settled
      needs manual settled h = inr (
          inl (
            elim settled [ inl named ↦ inl named | inr (bare_mode, given) ↦ inr bare_mode ],
            is_empty_ne c.tls_cert_file (ground arith),
            is_empty_ne c.tls_key_file (ground arith),
          ))
      needs acme_dns settled h = inr (
          inr (
            elim settled [ inl named ↦ inl named | inr (bare_mode, given) ↦ inr bare_mode ],
            is_empty_ne c.acme.dns_provider (ground arith),
            is_empty_ne c.acme.dns_api_token (ground arith),
            (ltb_ℤ_iff c.acme.propagation_timeout_seconds).0 (ground arith),
          ))

      back :
          IsPlain c ⊎ IsManual c ⊎ IsAcme c
          → (m : TlsMode) × (resolve_tls_mode c ≡ ok m) × (check_tls c m ≡ ok tt)
      back (inl none_used) = (plain, Settled-resolve plain none_used, refl)
      back (inr (inl (named, cert, key))) = (
        manual,
        Settled-resolve manual
            (elim named [ inl n ↦ inl n | inr bare_mode ↦ inr (bare_mode, inr (cert, key)) ]),
        rw (ne_is_empty c.tls_cert_file cert, ne_is_empty c.tls_key_file key) refl,
      )
      back (inr (inr (named, provider, token, timeout))) = (
        acme_dns,
        Settled-resolve acme_dns
            (elim named [ inl n ↦ inl n | inr bare_mode ↦ inr (bare_mode, provider) ]),
        rw
            (
              ne_is_empty c.acme.dns_provider provider,
              ne_is_empty c.acme.dns_api_token token,
              (ltb_ℤ_iff c.acme.propagation_timeout_seconds).1 timeout,
            )
            refl,
      )

  panel_of : IsServable c → check_panel c ≡ ok tt
  unfolding check_panel
  panel_of w = ground (
    arith,
    w.panel,
    w.published,
    w.reserved,
    w.credentials,
    (ltb_ℤ_iff c.max_request_body_bytes).1 w.body,
    (ltb_ℤ_iff c.admin_session_hours).1 w.hours,
    ne_is_empty c.db_path,
    ne_is_empty c.domain w.domain,
    ne_is_empty c.admin_address,
    ne_is_empty c.auth_token,
    is_empty_ne c.admin_address,
  )

  addresses_of : IsServable c → check_addresses c ≡ ok tt
  addresses_of w = addresses_iff.1 (
    (is_out_of_ports_iff c.port).1 w.port,
    elim w.shown [
      | inl same ↦ inl ((is_zero_iff c.public_port).1 same)
      | inr port ↦ inr ((is_out_of_ports_iff c.public_port).1 port)
    ],
    ne_is_empty c.domain w.domain,
    w.bare,
    w.tunnel_bare,
    (is_out_of_ports_iff c.tcp_port_min).1 w.lowest,
    (is_out_of_ports_iff c.tcp_port_max).1 w.highest,
    w.range,
  )

  validate-IsServable : validate c ≡ ok tt → IsServable c
  unfolding check_panel
  validate-IsServable e =
      let (addresses, mode, panel) = validate_parts c e in
      let (port, shown, domain, bare, tunnel_bare, lowest, highest, range) =
        addresses_iff.0 addresses in
      record {
        port = (is_out_of_ports_iff c.port).0 port;
        shown = elim shown [
          | inl same ↦ inl ((is_zero_iff c.public_port).0 same)
          | inr given ↦ inr ((is_out_of_ports_iff c.public_port).0 given)
        ];
        domain = is_empty_ne c.domain domain;
        bare = bare;
        tunnel_bare = tunnel_bare;
        lowest = (is_out_of_ports_iff c.tcp_port_min).0 lowest;
        range = range;
        highest = (is_out_of_ports_iff c.tcp_port_max).0 highest;
        tls = tls_iff.0 mode;
        panel =
            λ address. is_empty_ne c.db_path (ground (arith, ne_is_empty c.admin_address address));
        published = λ public. is_empty_ne c.admin_address (ground arith);
        reserved = λ only. is_empty_ne c.db_path (ground arith);
        credentials = λ required. elim (Bool-cases (is_empty c.db_path)) [
          | inl none_kept ↦ inr (is_empty_ne c.auth_token (ground arith))
          | inr kept ↦ inl (is_empty_ne c.db_path kept)
        ];
        body = (ltb_ℤ_iff c.max_request_body_bytes).0 (ground arith);
        hours = (ltb_ℤ_iff c.admin_session_hours).0 (ground arith);
      }

-- A configuration passes `Validate` if and only if it can be served. That is, its ports are numbers
-- from 1 to 65535, but that the public one may be 0; its domains have no colon, and the one for
-- clients is not empty; the lowest TCP port is below the highest. One of three holds: TLS is off, by
-- the mode `none`, or by no mode, no provider of DNS, the switch off and a certificate or a key
-- missing; or a certificate and a key are given, under the mode `manual`, or no mode and no provider
-- of DNS; or a provider of DNS with its token and a timeout that is not negative is given, under the
-- mode `acme` or no mode. A panel has a database, and a public one an address; reservations have a
-- database; required authentication has a database or a token to check against; and the limit of
-- bodies and the hours of a session are not negative.
pub validate_iff : (c : ServerConfig) → (validate c ≡ ok tt) ↔ IsServable c
unfolding validate
validate_iff c = (
  validate-IsServable c,
  λ w. let (m, mode, tls) = (tls_iff c).1 w.tls in rw (addresses_of c w, mode, tls) (panel_of c w),
)
