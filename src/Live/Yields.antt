-- ===== src/Live/Yields.antt =====
-- Rules for parts of `main` that end and change nothing but the device.
use raspdif.Prelude.{◌≡◌, refl, ap, ◌∙◌, sym}
use raspdif.Program.{
  Machine, Program, Ended, done, exits, asserts, hangs, give, then_do, ◌>>=◌, ◌>>◌,
}
use raspdif.Program.{system_call, system_query, on_device}
use mathlib.Core.Path.{subst}

abbrev ended_or : {A : Type 0} → A → Ended A → A
ended_or a (done b) = b
ended_or a exits = a
ended_or a asserts = a
ended_or a hangs = a

module _ {S : Type 0} {H : Type 0} (held : S → H) (m : Machine S) where
  -- From the device `s`, the program ends, changes nothing but the device, and keeps what is held; `P` holds
  -- of the result and the device that it leaves.
  pub record Yields {A : Type 0} (p : Program S A) (s : S) (P : A → S → Type 0) : Type 0 where
    pub result : A
    pub device : S
    pub known : P result device
    pub ran : p (on_device s m) ≡ (done result, on_device device m)
    pub same : held device ≡ held s

  pub then-Yields :
      {A B : Type 0} {P : A → S → Type 0} {Q : B → S → Type 0} {p : Program S A}
      {f : A → Program S B} {s : S}
      → Yields p s P
      → ((a : A) (s' : S) → P a s' → Yields (f a) s' Q)
      → Yields (p >>= f) s Q
  then-Yields {f = f} y next =
      let z = next y.result y.device y.known in
      record {
        result = z.result;
        known = z.known;
        device = z.device;
        ran = ap (λ r. then_do r f) y.ran ∙ z.ran;
        same = z.same ∙ y.same;
      }

  pub after-Yields :
      {B : Type 0} {P : Unit → S → Type 0} {Q : B → S → Type 0} {p : Program S Unit}
      {q : Program S B} {s : S}
      → Yields p s P
      → ((s' : S) → P tt s' → Yields q s' Q)
      → Yields (p >> q) s Q
  after-Yields {q = q} y next =
      let z = next y.device y.known in
      record {
        result = z.result;
        known = z.known;
        device = z.device;
        ran = ap (λ r. then_do r (λ _. q)) y.ran ∙ z.ran;
        same = z.same ∙ y.same;
      }

  -- A weaker claim of the result.
  pub map-Yields :
      {A : Type 0} {P Q : A → S → Type 0} {p : Program S A} {s : S}
      → ((a : A) (s' : S) → P a s' → Q a s')
      → Yields p s P
      → Yields p s Q
  map-Yields f y = record {
    result = y.result;
    known = f y.result y.device y.known;
    device = y.device;
    ran = y.ran;
    same = y.same;
  }

  pub forget-Yields :
      {A : Type 0} {P : A → S → Type 0} {p : Program S A} {s : S}
      → Yields p s P
      → Yields p s (λ _ _. Unit)
  forget-Yields y = map-Yields (λ a s' known. tt) y

  -- A program has one result: what two ways show of it holds together.
  pub both-Yields :
      {A : Type 0} {P Q : A → S → Type 0} {p : Program S A} {s : S}
      → Yields p s P
      → Yields p s Q
      → Yields p s (λ a s'. P a s' × Q a s')
  both-Yields {A = A} {Q = Q} y z =
      let same_run = sym z.ran ∙ y.ran in
      let result_of : Ended A × Machine S → A = λ r. ended_or y.result r.0 in
      let one = ap result_of same_run in
      let two = ap (λ r. r.1.host.device) same_run in
      record {
        result = y.result;
        device = y.device;
        known = (y.known, subst (λ s'. Q y.result s') two (subst (λ a. Q a z.device) one z.known));
        ran = y.ran;
        same = y.same;
      }

  pub give-Yields : {A : Type 0} {P : A → S → Type 0} {s : S} (a : A) → P a s → Yields (give a) s P
  give-Yields {s = s} a known = record {
    result = a;
    known = known;
    device = s;
    ran = refl;
    same = refl;
  }

  pub call-Yields :
      (f : S → S)
      → ((s : S) → held (f s) ≡ held s)
      → (s : S) → Yields (system_call f) s (λ _ s'. s' ≡ f s)
  call-Yields f kept s = record {
    result = tt;
    known = refl;
    device = f s;
    ran = refl;
    same = kept s;
  }

  pub query-Yields :
      {A : Type 0} (f : S → A × S)
      → ((s : S) → held (f s).1 ≡ held s)
      → (s : S) → Yields (system_query f) s (λ a s'. (a, s') ≡ f s)
  query-Yields f kept s = record {
    result = (f s).0;
    known = refl;
    device = (f s).1;
    ran = refl;
    same = kept s;
  }
