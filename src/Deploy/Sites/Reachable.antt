-- ===== src/Deploy/Sites/Reachable.antt =====
-- The ports of the sites of argus/shared.py against the rules that argus/firewall.py writes.
use mathlib.Core.Path.{subst}
use bitcoin_argus.Common.{
  ℕ, ◌+◌, ◌-◌, ◌≡◌, refl, sym, ap, ◌∙◌, String, Bool, true, some, List, [], ◌∷◌, ◌++◌, map, arith,
  ◌==◌, ==_iff, str_eq_iff, any, any-append_left, any-append_right, All, All-append, All-imp, inl,
  inr, Bool-cases, Option-cases,
}
use bitcoin_argus.Deploy.Network.{NetworkSpec, PortName, fixed, numbered}
use bitcoin_argus.Deploy.Ports.{Items, same_name}
use bitcoin_argus.Deploy.Firewall.{
  PublicCfg, Opening, openings, Rule, port_of, rules_for, ports_of, public_rules,
}
use bitcoin_argus.Deploy.Sites.{SiteCfg, HttpSite, Front, fronts, site_of, sites_for, http_sites}
use bitcoin_argus.Deploy.Sites.Opened.{Opens, fronts-Opened}

-- A rule begins at the port.
unfoldable pub is_opened : List Rule → ℕ → Bool
is_opened rules port = any (λ r. r.first == port) rules

-- The settings of the enabled networks, as the firewall reads them.
unfoldable pub public_nets :
    List (String × (SiteCfg × NetworkSpec)) → List (String × (PublicCfg × NetworkSpec))
public_nets nets = map (λ n. (n.0, (n.1.0.public, n.1.1))) nets

pub same_name→eq : (a b : PortName) → same_name a b ≡ true → a ≡ b
same_name→eq (fixed a) (fixed b) h = ap fixed ((str_eq_iff a b).0 h)
same_name→eq (numbered a i b) (numbered c j d) h =
    let first : a ≡ c = (str_eq_iff a c).0 (ground arith) in
    let number : i ≡ j = (==_iff i j).0 (ground arith) in
    let last : b ≡ d = (str_eq_iff b d).0 (ground arith) in rw (first, number, last) refl
same_name→eq (fixed a) (numbered c j d) h = cc
same_name→eq (numbered a i b) (fixed c) h = cc

pub rules_for-opened :
    (name : PortName) (p : ℕ) (ports : Items) (os : List Opening) (rules : List Rule)
    → rules_for ports os ≡ some rules
    → Opens os name
    → port_of name ports ≡ some p
    → is_opened rules p ≡ true
unfolding rules_for is_opened
rules_for-opened name p ports [] rules r h e = cc
rules_for-opened name p ports (o ∷ os) rules r h e = elim (Option-cases (port_of o.name ports)) [
  | inl n ↦ absurd (ground arith)
  | inr (q, n) ↦ elim (Option-cases (rules_for ports os)) [
    | inl m ↦ absurd (ground arith)
    | inr (more, m) ↦
        let same : record { first = q; last = q + o.size - 1 } ∷ more ≡ rules = ground arith in
        elim (Bool-cases (same_name name o.name)) [
          | inl s ↦
              let found : some q ≡ some p =
                sym n ∙ (ap (λ a. port_of a ports) (sym (same_name→eq name o.name s)) ∙ e) in
              rw (← same) (ground arith)
          | inr s ↦
              let later = rules_for-opened name p ports os more m (ground arith) e in
              rw (← same) (ground (arith, later))
        ]
  ]
]

site_of-public :
    (ports : Items) (f : Front) (s : HttpSite)
    → site_of ports f ≡ some s
    → port_of f.public ports ≡ some s.public_port
unfolding site_of
site_of-public ports f s h = elim (Option-cases (port_of f.public ports)) [
  | inl n ↦ absurd (ground arith)
  | inr (p, n) ↦ elim (Option-cases (port_of f.backend ports)) [
    | inl m ↦ absurd (ground arith)
    | inr (b, m) ↦
        let same : record { public_port = p; backend_port = b; ssl = f.ssl; h2c = f.h2c } ≡ s =
          ground arith in
        n ∙ ap (λ t. some t.public_port) same
  ]
]

abbrev AllOpened : List Rule → List HttpSite → Type 0
AllOpened rules sites = All (λ s. is_opened rules s.public_port ≡ true) sites

sites_for-opened :
    (ports : Items) (os : List Opening) (rules : List Rule) (fs : List Front)
    (sites : List HttpSite)
    → rules_for ports os ≡ some rules
    → All (λ f. Opens os f.public) fs
    → sites_for ports fs ≡ some sites
    → AllOpened rules sites
unfolding sites_for
sites_for-opened ports os rules [] sites r h e =
    let same : [] ≡ sites = ground arith in subst (AllOpened rules) same tt
sites_for-opened ports os rules (f ∷ fs) sites r h e = elim (Option-cases (site_of ports f)) [
  | inl n ↦ absurd (ground arith)
  | inr (s, n) ↦ elim (Option-cases (sites_for ports fs)) [
    | inl m ↦ absurd (ground arith)
    | inr (more, m) ↦
        let same : s ∷ more ≡ sites = ground arith in
        let here =
          rules_for-opened f.public s.public_port ports os rules r h.0
            (site_of-public ports f s n) in
        subst (AllOpened rules) same (here, sites_for-opened ports os rules fs more r h.1 m)
  ]
]

-- More rules open no less.
pub is_opened-first :
    (own more : List Rule) (p : ℕ) → is_opened own p ≡ true → is_opened (own ++ more) p ≡ true
unfolding is_opened
is_opened-first own more p h = any-append_left (λ r. r.first == p) own more h

pub is_opened-last :
    (own more : List Rule) (p : ℕ) → is_opened more p ≡ true → is_opened (own ++ more) p ≡ true
unfolding is_opened
is_opened-last own more p h = any-append_right (λ r. r.first == p) own more h

-- What the rules of a first network and of the others come to.
pub public_rules-cons :
    (key : String) (cfg : PublicCfg) (spec : NetworkSpec)
    (nets : List (String × (PublicCfg × NetworkSpec))) (port_map : List (String × Items))
    (ports : Items) (rules : List Rule)
    → ports_of key port_map ≡ some ports
    → public_rules ((key, (cfg, spec)) ∷ nets) port_map ≡ some rules
    → (own : List Rule) × (more : List Rule) × (rules_for ports (openings cfg spec) ≡ some own)
      × (public_rules nets port_map ≡ some more)
      × (own ++ more ≡ rules)
unfolding public_rules
public_rules-cons key cfg spec nets port_map ports rules n r =
    elim (Option-cases (rules_for ports (openings cfg spec))) [
      | inl m ↦ absurd (ground arith)
      | inr (own, m) ↦ elim (Option-cases (public_rules nets port_map)) [
        | inl o ↦ absurd (ground arith)
        | inr (more, o) ↦ (own, more, m, o, ground arith)
      ]
    ]

-- Sites that the rules of one network, or of the others, open are opened by all.
AllOpened-first :
    (own more : List Rule) (sites : List HttpSite)
    → AllOpened own sites
    → AllOpened (own ++ more) sites
AllOpened-first own more sites =
    All-imp _ (λ s. is_opened (own ++ more) s.public_port ≡ true) sites
      (λ s. is_opened-first own more s.public_port)

AllOpened-last :
    (own more : List Rule) (sites : List HttpSite)
    → AllOpened more sites
    → AllOpened (own ++ more) sites
AllOpened-last own more sites =
    All-imp _ (λ s. is_opened (own ++ more) s.public_port ≡ true) sites
      (λ s. is_opened-last own more s.public_port)

-- If the firewall's rules and the sites are written for the same networks, every site that Caddy fronts
-- has its public port opened by a rule.
pub http_sites-opened :
    (ssl_enabled : Bool) (nets : List (String × (SiteCfg × NetworkSpec)))
    (port_map : List (String × Items)) (sites : List HttpSite) (rules : List Rule)
    → http_sites ssl_enabled nets port_map ≡ some sites
    → public_rules (public_nets nets) port_map ≡ some rules
    → All (λ s. is_opened rules s.public_port ≡ true) sites
unfolding http_sites public_nets
http_sites-opened ssl_enabled [] port_map sites rules e r =
    let same : [] ≡ sites = ground arith in subst (AllOpened rules) same tt
http_sites-opened ssl_enabled ((key, (cfg, spec)) ∷ nets) port_map sites rules e r =
    elim (Option-cases (ports_of key port_map)) [
      | inl n ↦ absurd (ground arith)
      | inr (ports, n) ↦ elim (Option-cases (sites_for ports (fronts ssl_enabled cfg spec))) [
        | inl m ↦ absurd (ground arith)
        | inr (first, m) ↦ elim (Option-cases (http_sites ssl_enabled nets port_map)) [
          | inl o ↦ absurd (ground arith)
          | inr (last, o) ↦
              let (own, more, a, b, c) =
                public_rules-cons key cfg.public spec (public_nets nets) port_map ports rules n r in
              let same : first ++ last ≡ sites = ground arith in
              subst (λ s. AllOpened s sites) c
                (subst (AllOpened (own ++ more)) same (
                  All-append (λ s. is_opened (own ++ more) s.public_port ≡ true) first last
                    (AllOpened-first own more first (
                      sites_for-opened ports (openings cfg.public spec) own
                        (fronts ssl_enabled cfg spec) first a (fronts-Opened ssl_enabled cfg spec)
                        m))
                    (AllOpened-last own more last
                      (http_sites-opened ssl_enabled nets port_map last more o b))))
        ]
      ]
    ]
