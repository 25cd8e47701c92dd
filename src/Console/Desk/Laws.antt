-- ===== src/Console/Desk/Laws.antt =====
-- What a load leaves of the lists.
use senix.Prelude.{
  some_injective, ℕ, Bool, true, false, Text, List, [], ◌∷◌, Option, none, some, ◌≡◌, ◌⊎◌, refl,
  subst, arith, All, Bool-cases, inl, inr, ◌≢◌,
}
use senix.Console.Api.{Value, array, nil, Answer, answered, failed, ApiError, code_is}
use senix.Console.Desk.{
  Part, instances, config, changes, credentials, certificates, audit, Lists, Pending, nothing_yet,
  certificate_answer, put_certificates, put, gather, all_of, complete, Desk, is_unauthorized,
  reject, commit, finish_load, load_all,
}

answered_injective {ℓ} : {A : Type ℓ} {a b : A} → answered a ≡ answered b → a ≡ b
answered_injective h = ground arith

answered_ne_failed {ℓ} :
    {A : Type ℓ} {a : A} {e : ApiError} → ◌≢◌ {A = Answer A} (failed e) (answered a)
answered_ne_failed = cc

module _ (P : Part × Answer Value → Type 0) where
  abbrev Is : Part → Option Value → Type 0
  Is part none = Unit
  Is part (some v) = P (part, answered v)

  -- The certificates come from a good answer, or the store is disabled.
  abbrev pub IsCertificates : Bool → Value → Type 0
  IsCertificates true v = P (certificates, answered v)
  IsCertificates false v =
      (e : ApiError) × P (certificates, failed e)
      × (code_is "CERTIFICATE_STORE_DISABLED" e ≡ true)
      × (v ≡ array nil)

  abbrev AreCertificates : Option (Bool × Value) → Type 0
  AreCertificates none = Unit
  AreCertificates (some (enabled, v)) = IsCertificates enabled v

  abbrev IsGathered : Pending → Type 0
  IsGathered p =
      Is instances p.instances
      × Is config p.current
      × Is changes p.changes
      × Is credentials p.credentials
      × AreCertificates p.certificates
      × Is audit p.audit

  -- Each list is from an answer with the property.
  pub record IsLoaded (l : Lists) : Type 0 where
    pub instances : P (instances, answered l.instances)
    pub config : P (config, answered l.current)
    pub changes : P (changes, answered l.changes)
    pub credentials : P (credentials, answered l.credentials)
    pub certificates : IsCertificates l.certificate_store_enabled l.certificates
    pub audit : P (audit, answered l.audit)

  abbrev IsGood : Answer Pending → Type 0
  IsGood (answered p) = IsGathered p
  IsGood (failed e) = Unit

  certificate_answer-IsCertificates :
      (answer : Answer Value) (enabled : Bool) (v : Value)
      → P (certificates, answer)
      → certificate_answer answer ≡ answered (enabled, v)
      → IsCertificates enabled v
  certificate_answer-IsCertificates (answered items) enabled v h e =
      subst (λ (r : Bool × Value). IsCertificates r.0 r.1) (answered_injective e) h
  certificate_answer-IsCertificates (failed error) enabled v h e =
      elim (Bool-cases (code_is "CERTIFICATE_STORE_DISABLED" error)) [
        | inl disabled ↦
            subst (λ (r : Bool × Value). IsCertificates r.0 r.1)
              (answered_injective (rw disabled at e)) (error, h, disabled, refl)
        | inr other ↦ absurd (answered_ne_failed (rw other at e))
      ]

  put_certificates-IsGood :
      (answer : Answer (Bool × Value)) (p : Pending)
      → ((enabled : Bool) (v : Value) → answer ≡ answered (enabled, v) → IsCertificates enabled v)
      → IsGathered p
      → IsGood (put_certificates answer p)
  put_certificates-IsGood (failed e) p h g = tt
  put_certificates-IsGood (answered (enabled, v)) p h g =
      (g.0, g.1, g.2, g.3, h enabled v refl, g.5)

  put-IsGood :
      (part : Part) (answer : Answer Value) (p : Pending)
      → P (part, answer)
      → IsGathered p
      → IsGood (put part answer p)
  put-IsGood certificates answer p h g =
      put_certificates-IsGood (certificate_answer answer) p
        (λ enabled v e. certificate_answer-IsCertificates answer enabled v h e) g
  put-IsGood instances (failed e) p h g = tt
  put-IsGood config (failed e) p h g = tt
  put-IsGood changes (failed e) p h g = tt
  put-IsGood credentials (failed e) p h g = tt
  put-IsGood audit (failed e) p h g = tt
  put-IsGood instances (answered v) p h g = (h, g.1, g.2, g.3, g.4, g.5)
  put-IsGood config (answered v) p h g = (g.0, h, g.2, g.3, g.4, g.5)
  put-IsGood changes (answered v) p h g = (g.0, g.1, h, g.3, g.4, g.5)
  put-IsGood credentials (answered v) p h g = (g.0, g.1, g.2, h, g.4, g.5)
  put-IsGood audit (answered v) p h g = (g.0, g.1, g.2, g.3, g.4, h)

  gather-IsGood :
      (p : Pending) (settled : List (Part × Answer Value))
      → All P settled
      → IsGathered p
      → IsGood (gather p settled)
  unfolding gather
  gather-IsGood p [] h g = g
  gather-IsGood p ((part, answer) ∷ later) (here, h) g =
      elim (put part answer p)
          as (λ a.
            IsGood a → IsGood (elim a [ answered q ↦ gather q later | failed e ↦ failed e ])) [
              | answered q ↦ λ k. gather-IsGood q later h k
              | failed e ↦ λ k. tt
            ]
        (put-IsGood part answer p here g)

  all_of-IsLoaded :
      (i c h k : Option Value) (t : Option (Bool × Value)) (a : Option Value) {l : Lists}
      → Is instances i
      → Is config c
      → Is changes h
      → Is credentials k
      → AreCertificates t
      → Is audit a
      → all_of i c h k t a ≡ some l
      → IsLoaded l
  all_of-IsLoaded none c h k t a pi pc ph pk pt pa e = cc
  all_of-IsLoaded (some i) none h k t a pi pc ph pk pt pa e = cc
  all_of-IsLoaded (some i) (some c) none k t a pi pc ph pk pt pa e = cc
  all_of-IsLoaded (some i) (some c) (some h) none t a pi pc ph pk pt pa e = cc
  all_of-IsLoaded (some i) (some c) (some h) (some k) none a pi pc ph pk pt pa e = cc
  all_of-IsLoaded (some i) (some c) (some h) (some k) (some t) none pi pc ph pk pt pa e = cc
  all_of-IsLoaded (some i) (some c) (some h) (some k) (some (enabled, t)) (some a) pi pc ph pk pt pa
        e =
      subst IsLoaded (some_injective e) (record {
        instances = pi;
        config = pc;
        changes = ph;
        credentials = pk;
        certificates = pt;
        audit = pa;
      })

  -- Either all lists are new, or all are as before.
  abbrev pub IsWhole : Lists → Lists → Type 0
  IsWhole old new = (new ≡ old) ⊎ IsLoaded new

  commit-IsWhole :
      (show : ℕ → Text) (o : Option Lists) (d : Desk)
      → ((l : Lists) → o ≡ some l → IsLoaded l)
      → IsWhole d.lists (commit show o d).lists
  commit-IsWhole show none d h = inl refl
  commit-IsWhole show (some l) d h = inr (h l refl)

  reject-lists : (show : ℕ → Text) (e : ApiError) (d : Desk) → (reject show e d).lists ≡ d.lists
  reject-lists show e d = elim (Bool-cases (is_unauthorized e)) [
    | inl unauthorized ↦ rw unauthorized refl
    | inr other ↦ rw other refl
  ]

  finish_load-IsWhole :
      (show : ℕ → Text) (a : Answer Pending) (d : Desk)
      → IsGood a
      → IsWhole d.lists (finish_load show a d).lists
  finish_load-IsWhole show (failed e) d k = inl (reject-lists show e d)
  finish_load-IsWhole show (answered p) d k = commit-IsWhole show (complete p) d (λ l e.
      all_of-IsLoaded p.instances p.current p.changes p.credentials p.certificates p.audit k.0 k.1
        k.2 k.3 k.4 k.5 e)

  -- In whatever order the answers come and whichever of them fail, a load leaves all lists as they
  -- were, or shows in each list what its call was answered, and for the certificates an empty list
  -- where the answer was that the store is disabled. `P` is any property of all the answers.
  pub load_all-IsWhole :
      (show : ℕ → Text) (settled : List (Part × Answer Value)) (d : Desk)
      → All P settled
      → IsWhole d.lists (load_all show settled d).lists
  unfolding load_all
  load_all-IsWhole show settled d h =
      let begun : IsGathered nothing_yet = (tt, tt, tt, tt, tt, tt) in
      finish_load-IsWhole show (gather nothing_yet settled) d
        (gather-IsGood nothing_yet settled h begun)
