-- ===== src/Infer/Substitution/Apply.antt =====
-- `applySubstitution`: the bank stays hash-consed, and the new term means what the old one means
-- under the assignment that the substitution stands for.
use richard_atp_engine.Prelude.{
  ℕ, zero, suc, ◌≡◌, ◌<◌, refl, sym, ap, ◌∙◌, inl, inr, true, false, none, some, find?, ℕ_eq,
  length, get_elem?_of_lt, get_elem?, get_elem?-lt, if◌then◌else◌, All, All-map_pred, map,
  map_congr, List, [], ◌∷◌, Machine, Outcome, done, ◌>>=◌, Post, returns, fails, Post-bind,
  Post-map, Post-with_eq,
}
use native.Mathlib.Nat.{lt_trans}
use richard_atp_engine.Core.Types.{Term, uint32_mod}
use richard_atp_engine.Core.TermBank.{TermBank, is_variable, make_term, get_term}
use richard_atp_engine.Core.TermBank.Laws.{
  IsWellFormed, Fits, Extends, Extends-refl, Extends-trans, Extends-lt, make_term-Made,
}
use richard_atp_engine.Semantics.{Structure, value, var_term}
use richard_atp_engine.Semantics.Laws.{
  value_of_variable, var_term_of, value-app, value-Extends, is_variable-Extends,
}
use richard_atp_engine.Infer.Substitution.{Substitution, resolve, apply_each, apply_substitution}
use richard_atp_engine.Infer.Substitution.Resolve.{
  IsEnd, InRange, resolve-IsEnd_result, resolve-Extends,
}

-- The assignment `e` is `v` after the substitution: it agrees with `v` on unbound variables, and
-- following the bindings does not change a value.
pub record Follows (m : Machine) (s : Substitution) (b : TermBank) (M : Structure)
    (v e : ℕ → M.Carrier) : Type 0 where
  pub resolves :
      (t r : ℕ) → t < length b.terms → resolve m.fuel s b t ≡ done r → value M b e t ≡ value M b e r
  pub free : (x : ℕ) → is_variable b x ≡ done true → find? x s ≡ none → e x ≡ v x

var_term_same :
    (b c : TermBank) (t u : Term)
    → c.symbols ≡ b.symbols
    → u.symbol ≡ t.symbol
    → var_term c u ≡ var_term b t
var_term_same b c t u p q = rw (p, q)

module _ (m : Machine) (cap : m.capacity < uint32_mod) (s : Substitution) (b : TermBank)
    (w : IsWellFormed b) (in_range : InRange s b) where
  -- The bank that a run started from, with no new symbol.
  pub record Reached (c : TermBank) : Type 0 where
    pub well_formed : IsWellFormed c
    pub extends : Extends b c
    pub same_symbols : c.symbols ≡ b.symbols

  -- What applying the substitution to one term promises.
  pub record Applied (c : TermBank) (id : ℕ) (r : ℕ × TermBank) : Type 1 where
    pub reached : Reached r.1
    pub extends : Extends c r.1
    pub inside : r.0 < length r.1.terms
    pub keeps_value :
        (M : Structure) (v e : ℕ → M.Carrier)
        → Follows m s b M v e
        → value M r.1 v r.0 ≡ value M b e id

  -- The same for a list of arguments.
  pub record AppliedEach (c : TermBank) (args : List ℕ) (r : List ℕ × TermBank) : Type 1 where
    pub reached : Reached r.1
    pub extends : Extends c r.1
    pub inside : All (λ a. a < length r.1.terms) r.0
    pub same_length : length r.0 ≡ length args
    pub keeps_values :
        (M : Structure) (v e : ℕ → M.Carrier)
        → Follows m s b M v e
        → map (value M r.1 v) r.0 ≡ map (value M b e) args

  -- A loop over arguments keeps what each step keeps.
  pub apply_each-AppliedEach :
      (step : ℕ → TermBank → Outcome (ℕ × TermBank))
      → ((c : TermBank) (id : ℕ)
          → Reached c
          → id < length b.terms
          → Post (Applied c id) (step id c))
      → (args : List ℕ) (c : TermBank) → Reached c
      → All (λ a. a < length b.terms) args
      → Post (AppliedEach c args) (apply_each step args c)
  unfolding apply_each
  apply_each-AppliedEach step each [] c ok h = returns (record {
    reached = ok;
    extends = Extends-refl c;
    inside = tt;
    same_length = refl;
    keeps_values = λ M v e follows. refl;
  })
  apply_each-AppliedEach step each (a ∷ args) c ok h = Post-bind (each c a ok h.0) λ (a', d) first.
      Post-bind (apply_each-AppliedEach step each args d first.reached h.1) λ (args', d') rest.
        returns (record {
          reached = rest.reached;
          extends = Extends-trans first.extends rest.extends;
          inside = (Extends-lt rest.extends first.inside, rest.inside);
          same_length = ap suc rest.same_length;
          keeps_values = λ M v e follows.
              rw
                (
                  value-Extends M d d' first.reached.well_formed rest.extends v a' first.inside,
                  first.keeps_value M v e follows,
                  rest.keeps_values M v e follows,
                )
                refl;
        })

  module _ (c : TermBank) (ok : Reached c) (id r : ℕ) (r_inside : r < length b.terms)
      (found : resolve m.fuel s b id ≡ done r) (id_inside : id < length b.terms) where
    -- The walk ended at an unbound variable.
    Applied-variable : is_variable b r ≡ done true → find? r s ≡ none → Applied c id (r, c)
    Applied-variable is_var free = record {
      reached = ok;
      extends = Extends-refl c;
      inside = Extends-lt ok.extends r_inside;
      keeps_value = λ M v e follows.
          value_of_variable c ok.well_formed M v r (Extends-lt ok.extends r_inside)
            (is_variable-Extends b w c r ok.extends ok.well_formed r_inside ∙ is_var)
          ∙ sym (
              follows.resolves id r id_inside found
              ∙ value_of_variable b w M e r r_inside is_var
              ∙ follows.free r is_var free);
    }

    -- The walk ended at a term whose arguments were replaced in turn.
    Applied-rebuilt :
        (t : Term)
        → get_elem? b.terms r ≡ some t
        → is_variable b r ≡ done false
        → (each : List ℕ × TermBank) → AppliedEach c t.args each
        → Post (Applied c id) (make_term m t.symbol each.0 each.1)
    Applied-rebuilt t at plain (args', d) each =
        let fits = w.fits r t at in
        let rebuilt : Term = record { symbol = t.symbol; args = args' } in
        let new_fits : Fits d.symbols (length d.terms) rebuilt = record {
          below = each.inside;
          known = rw each.reached.same_symbols fits.known;
          small = rw each.same_length fits.small;
        } in
        Post-map (make_term-Made d each.reached.well_formed m t.symbol args' cap new_fits)
          λ (id', d') made. record {
            reached = record {
              well_formed = made.well_formed;
              extends = Extends-trans each.reached.extends made.extends;
              same_symbols = made.same_symbols ∙ each.reached.same_symbols;
            };
            extends = Extends-trans each.extends made.extends;
            inside = get_elem?-lt d'.terms id' rebuilt made.at;
            keeps_value = λ M v e follows.
                let plain_term = var_term_of b w r t false at plain in
                value-app M d' v made.well_formed id' rebuilt made.at (
                  var_term_same b d' t rebuilt (made.same_symbols ∙ each.reached.same_symbols) refl
                  ∙ plain_term)
                ∙ ap (M.apply t.symbol) (
                    map_congr (value M d' v) (value M d v) args'
                      (λ a. value-Extends M d d' each.reached.well_formed made.extends v a)
                      each.inside
                    ∙ each.keeps_values M v e follows)
                ∙ sym (follows.resolves id r id_inside found ∙ value-app M b e w r t at plain_term);
          }

    -- The walk ended, and the arguments, if there are any, are replaced by `step`.
    finish :
        (step : ℕ → TermBank → Outcome (ℕ × TermBank))
        → ((d : TermBank) (a : ℕ) → Reached d → a < length b.terms → Post (Applied d a) (step a d))
        → IsEnd s b r
        → Post (Applied c id) (
            is_variable c r >>= λ is_var.
            if is_var
            then done (r, c)
            else (get_term c r >>= λ t.
                apply_each step t.args c >>= λ (new_args, d). make_term m t.symbol new_args d))
    finish step each (inr (is_var, free)) =
        rw (is_variable-Extends b w c r ok.extends ok.well_formed r_inside ∙ is_var)
          (returns (Applied-variable is_var free))
    finish step each (inl plain) =
        let (t, at) = get_elem?_of_lt b.terms r r_inside in
        rw
          (
            is_variable-Extends b w c r ok.extends ok.well_formed r_inside ∙ plain,
            ok.extends.terms r t at,
          )
          (Post-bind
            (apply_each-AppliedEach step each t.args c ok (
              All-map_pred t.args (λ a (below : a < r). lt_trans below r_inside)
                (w.fits r t at).below))
            (Applied-rebuilt t at plain))

  -- Under a capacity below 2³², if applying bindings over a well-formed bank to a term of that
  -- bank, in a well-formed bank that extends it by terms only, returns, then it keeps the bank
  -- well-formed, changes no old term and no symbol, and gives a term of the new bank whose value
  -- is that of the old one under every assignment that follows the bindings.
  pub apply_substitution-Applied :
      (f id : ℕ) (c : TermBank)
      → Reached c
      → id < length b.terms
      → Post (Applied c id) (apply_substitution m f s id c)
  unfolding apply_substitution
  apply_substitution-Applied zero id c ok h = fails
  apply_substitution-Applied (suc f) id c ok h =
      rw (resolve-Extends s b w in_range c m.fuel id ok.extends ok.well_formed h) (
        Post-bind (Post-with_eq (resolve-IsEnd_result s b w in_range m.fuel id h))
          λ r (found, both).
            finish c ok id r both.0 found h (apply_substitution m f s)
              (λ d a ok' a_inside. apply_substitution-Applied f a d ok' a_inside) both.1)
