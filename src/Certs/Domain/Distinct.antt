-- ===== src/Certs/Domain/Distinct.antt =====
-- The names of a certificate request (normalizeDomains of internal/certs/manager.go).
use routestack_agent.Base.{
  Text, Unicode, true, false, List, [], ◌∷◌, ◌++◌, ◌≡◌, inl, inr, refl, sym, ◌∙◌, append-nil,
  append_assoc, ap, arith, All, All-append, text_eq_refl, if◌then◌else◌, Bool-cases,
}
use routestack_agent.World.{Result-cases, ok}
use routestack_agent.Certs.Domain.{normalize_domain, member, add_domains, normalize_domains}
use routestack_agent.Certs.Domain.Normal.{IsDomain, normalize_domain-IsDomain}

-- No name equals an earlier one.
pub data Distinct : List Text → Type 0 where
  none : Distinct []
  snoc : (ds : List Text) (d : Text) → Distinct ds → member d ds ≡ false → Distinct (ds ++ d ∷ [])

module _ (U : Unicode) where
  -- The list is free of duplicates, holds domains only, starts with the names it had and has the
  -- normal form of every name added.
  pub record IsExtended (domains extra result : List Text) : Type 0 where
    pub distinct : Distinct result
    pub domains_only : All IsDomain result
    pub starts : (tail : List Text) × (result ≡ domains ++ tail)
    pub covers :
        All (λ raw. (d : Text) × (normalize_domain U raw ≡ ok d) × (member d result ≡ true)) extra

member-append : (d : Text) (ds es : List Text) → member d ds ≡ true → member d (ds ++ es) ≡ true
member-append d [] es h = cc
member-append d (e ∷ ds) es h = ground (arith, member-append d ds es)

member-snoc : (d : Text) (ds : List Text) → member d (ds ++ d ∷ []) ≡ true
member-snoc d [] = ground (arith, text_eq_refl d)
member-snoc d (e ∷ ds) = ground (arith, member-snoc d ds)

module _ (U : Unicode) where
  -- One step of the loop: the name joins the list unless it is there.
  added : Text → List Text → List Text
  added d domains = if member d domains then domains else domains ++ d ∷ []

  pub record IsAdded (d : Text) (domains result : List Text) : Type 0 where
    pub distinct : Distinct result
    pub domains_only : All IsDomain result
    pub starts : (tail : List Text) × (result ≡ domains ++ tail)
    pub there : member d result ≡ true

  added-IsAdded :
      (d : Text) (domains : List Text)
      → Distinct domains
      → All IsDomain domains
      → IsDomain d
      → IsAdded d domains (added d domains)
  unfolding added
  added-IsAdded d domains distinct only domain = elim (Bool-cases (member d domains)) [
    | inl e ↦ rw e record {
      distinct = distinct;
      domains_only = only;
      starts = ([], sym (append-nil domains));
      there = e;
    }
    | inr e ↦ rw e record {
      distinct = snoc domains d distinct e;
      domains_only = All-append IsDomain domains (d ∷ []) only (domain, tt);
      starts = (d ∷ [], refl);
      there = member-snoc d domains;
    }
  ]

  extend :
      (d : Text) (mid domains : List Text) (raw : Text) (extra result : List Text)
      → normalize_domain U raw ≡ ok d
      → IsAdded d domains mid
      → IsExtended U mid extra result
      → IsExtended U domains (raw ∷ extra) result
  extend d mid domains raw extra result e step rest =
      let (t1, e1) = step.starts in
      let (t2, e2) = rest.starts in
      let there : member d result ≡ true = rw e2 (member-append d mid t2 step.there) in
      record {
        distinct = rest.distinct;
        domains_only = rest.domains_only;
        starts = (t1 ++ t2, (e2 ∙ ap (λ m. m ++ t2) e1) ∙ append_assoc domains t1 t2);
        covers = ((d, e, there), rest.covers);
      }

  add_domains-IsExtended :
      (domains extra result : List Text)
      → Distinct domains
      → All IsDomain domains
      → add_domains U domains extra ≡ ok result
      → IsExtended U domains extra result
  unfolding add_domains added
  add_domains-IsExtended domains [] result distinct only h =
      let same : result ≡ domains = ground arith in
      rw same record {
        distinct = distinct;
        domains_only = only;
        starts = ([], sym (append-nil domains));
        covers = tt;
      }
  add_domains-IsExtended domains (raw ∷ extra) result distinct only h =
      elim (Result-cases (normalize_domain U raw)) [
        | inr (m, e) ↦ absurd (ground arith)
        | inl (d, e) ↦
            let step =
              added-IsAdded d domains distinct only (normalize_domain-IsDomain U raw d e) in
            let rest =
              add_domains-IsExtended (added d domains) extra result step.distinct step.domains_only
                (rw (add_domains, e) at h) in
            extend d (added d domains) domains raw extra result e step rest
      ]

  -- When the primary name is a domain in normal form, normalizeDomains returns a list that starts
  -- with it, holds no name twice and only domains, and has the normal form of every name asked for;
  -- each of those has one.
  pub normalize_domains-IsExtended :
      (primary : Text) (extra result : List Text)
      → IsDomain primary
      → normalize_domains U primary extra ≡ ok result
      → IsExtended U (primary ∷ []) extra result
  unfolding normalize_domains
  normalize_domains-IsExtended primary extra result domain h =
      add_domains-IsExtended (primary ∷ []) extra result (snoc [] primary none refl) (domain, tt) h
