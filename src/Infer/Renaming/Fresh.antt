-- ===== src/Infer/Renaming/Fresh.antt =====
-- Making the new variables keeps the bank and the table well-formed, and binds variables to
-- variables.
use richard_atp_engine.Prelude.{
  ℕ, ◌≡◌, ◌<◌, sym, ap, ◌∙◌, ⊎_elim, some, find?, find?-cons_cases, emplace, emplace_new, ℕ_eq,
  Option-cases, List, [], ◌∷◌, length, get_elem?-lt, arith, All, All-map_pred, Machine, done, Post,
  Post-bind, Post-map, returns, subst,
}
use richard_atp_engine.Core.Types.{variable, uint32_mod, unsorted, is_variable_kind}
use richard_atp_engine.Core.SymbolTable.Laws as Symbols
use richard_atp_engine.Core.TermBank.{TermBank}
use richard_atp_engine.Core.TermBank.Laws.{
  IsWellFormed, Fits, Extends, Extends-refl, Extends-trans, Extends-lt, make_term-Made,
  with_symbols-IsWellFormed,
}
use richard_atp_engine.Semantics.Laws.{is_variable-Extends, is_variable-eq, var_term_info}
use richard_atp_engine.Infer.Substitution.{Substitution, bind}
use richard_atp_engine.Infer.Renaming.{Engine, fresh_name, fresh_variable, bind_fresh}
use richard_atp_engine.Infer.Renaming.Collect.{IsVar}

-- The state that every inference keeps: the bank is hash-consed and its symbol table is valid.
pub record IsSound (e : Engine) : Type 0 where
  pub bank : IsWellFormed e.bank
  pub table : Symbols.IsValid e.bank.symbols

-- A new state from an old one, with a variable.
pub record Freshened (e : Engine) (r : ℕ × Engine) : Type 0 where
  pub sound : IsSound r.1
  pub extends : Extends e.bank r.1.bank
  pub is_var : IsVar r.1.bank r.0

abbrev pub Renames : Substitution → TermBank → Type 0
Renames s b = (x t : ℕ) → find? x s ≡ some t → IsVar b x × IsVar b t

IsVar-Extends :
    (b c : TermBank) (x : ℕ) → IsWellFormed b → IsWellFormed c → Extends b c → IsVar b x → IsVar c x
IsVar-Extends b c x w w' e (inside, is_var) =
    (Extends-lt e inside, is_variable-Extends b w c x e w' inside ∙ is_var)

emplace-Renames :
    (x y : ℕ) (s : Substitution) (b : TermBank)
    → IsVar b x
    → IsVar b y
    → Renames s b
    → Renames (emplace x y s) b
emplace-Renames x y s b hx hy r =
    ⊎_elim
      (λ new. rw (emplace_new x y s new) λ z t h.
        ⊎_elim (λ (same, to). (subst (IsVar b) same hx, subst (IsVar b) to hy)) (r z t)
          (find?-cons_cases x z y t s h))
      (λ (u, old). rw (old, emplace) r) (Option-cases (find? x s))

module _ (m : Machine) (cap : m.capacity < uint32_mod) where
  pub fresh_variable-Freshened : (e : Engine) → IsSound e → Post (Freshened e) (fresh_variable m e)
  unfolding fresh_variable
  fresh_variable-Freshened e ok =
      Post-bind
        (Symbols.intern-Interned e.bank.symbols ok.table m (fresh_name m e.var_counter) variable 0
          unsorted cap)
        λ (x, t) interned.
          let b = record e.bank { symbols = t } in
          let w = with_symbols-IsWellFormed e.bank t ok.bank interned.extends in
          let fits : Fits t (length e.bank.terms) (record { symbol = x; args = [] }) = record {
            below = tt;
            known = get_elem?-lt t.infos x interned.info interned.at;
            small = omega arith;
          } in
          Post-bind (make_term-Made b w m x [] cap fits) λ (v, c) made. returns (record {
            sound = record {
              bank = made.well_formed;
              table = subst Symbols.IsValid (sym made.same_symbols) interned.valid;
            };
            extends = record {
              terms = made.extends.terms;
              symbols = λ i info h. made.extends.symbols i info (interned.extends i info h);
            };
            is_var = (
              get_elem?-lt c.terms v (record { symbol = x; args = [] }) made.at,
              is_variable-eq c made.well_formed v (record { symbol = x; args = [] }) made.at
                  ∙ ap done (
                      var_term_info c (record { symbol = x; args = [] }) interned.info
                        (made.extends.symbols x interned.info interned.at)
                      ∙ ap is_variable_kind interned.has_kind),
            );
          })

  -- Variables of the bank, bound to variables of the bank.
  pub record Bound (e : Engine) (r : Substitution × Engine) : Type 0 where
    pub sound : IsSound r.1
    pub extends : Extends e.bank r.1.bank
    pub renames : Renames r.0 r.1.bank

  pub bind_fresh-Bound :
      (xs : List ℕ) (s : Substitution) (e : Engine)
      → IsSound e
      → All (IsVar e.bank) xs
      → Renames s e.bank
      → Post (Bound e) (bind_fresh m xs s e)
  unfolding bind_fresh bind
  bind_fresh-Bound [] s e ok h r =
      returns (record { sound = ok; extends = Extends-refl e.bank; renames = r })
  bind_fresh-Bound (x ∷ xs) s e ok h r = Post-bind (fresh_variable-Freshened e ok) λ (y, e₁) fresh.
      let grow = λ (z : ℕ) (v : IsVar e.bank z).
        IsVar-Extends e.bank e₁.bank z ok.bank fresh.sound.bank fresh.extends v in
      Post-map
        (bind_fresh-Bound xs (emplace x y s) e₁ fresh.sound (All-map_pred xs grow h.1) (
          emplace-Renames x y s e₁.bank (grow x h.0) fresh.is_var
            (λ z t p. (grow z (r z t p).0, grow t (r z t p).1))))
        λ (s', e₂) bound. record {
          sound = bound.sound;
          extends = Extends-trans fresh.extends bound.extends;
          renames = bound.renames;
        }
