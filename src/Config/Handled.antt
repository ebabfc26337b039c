-- ===== src/Config/Handled.antt =====
-- What the lines of a section do to its options.
use lnst.Prelude.{
  String, ◌≡◌, ◌≢◌, ◌≤◌, refl, ap, ◌∙◌, sym, subst, none, some, List, [], ◌∷◌, Bool, true, false,
  ◌==◌, ==_iff, ==_self, string_eq, elem, count, Bool-cases, Option-cases, inl, inr, ◌⊎◌, All,
}
use lnst.Prelude.Dict.{get, put, IsDistinct, get-put, put-IsDistinct}
use lnst.Prelude.Text.{is_empty}
use lnst.Prelude.Exc.{Result, ok, >>=-eq-ok}
use lnst.Config.Parser.{Operator, assign, add, Line}
use lnst.Config.{Opt, Section, find_option_by_name, new_value, handle_option, handle_options}
use lnst.Config.Named.{names_of, AreNamed, names_of-put, find_lem, found_once}

-- What the lines of a section make of the value of one option: a line without a value and a line of
-- another option leave it, `=` replaces it by what the option's action makes of the line's value,
-- and `+=`, which only an additive option takes, adds that.
pub data Sets {V : Type 0} (plus : V → V → Result V) (action : String → Result V) (additive : Bool)
    (name : String) : V → List Line → V → Type 0 where
  ended : {v : V} → Sets plus action additive name v [] v
  passed_over :
      {v w : V} {opt : Line} {config : List Line}
      → (is_empty opt.value ≡ true) ⊎ (opt.name ≢ name)
      → Sets plus action additive name v config w
      → Sets plus action additive name v (opt ∷ config) w
  replaced :
      {v w : V} {opt : Line} {config : List Line} (x : V)
      → is_empty opt.value ≡ false
      → opt.name ≡ name
      → opt.operator ≡ assign
      → action opt.value ≡ ok x
      → Sets plus action additive name x config w
      → Sets plus action additive name v (opt ∷ config) w
  added :
      {v w : V} {opt : Line} {config : List Line} (x y : V)
      → is_empty opt.value ≡ false
      → opt.name ≡ name
      → opt.operator ≡ add
      → additive ≡ true
      → action opt.value ≡ ok x
      → plus v x ≡ ok y
      → Sets plus action additive name y config w
      → Sets plus action additive name v (opt ∷ config) w

operator_cases : (op : Operator) → (op ≡ assign) ⊎ (op ≡ add)
operator_cases assign = inl refl
operator_cases add = inr refl

module _ {V : Type 0} (plus : V → V → Result V) (cfg_path : String) where
  -- What became of the options of a section by its lines: the same ones, each with the value that
  -- the lines make of its own, and each line with a value names one.
  pub record IsHandled (section end : Section V) (config : List Line) : Type 0 where
    pub kept :
        (k : String) (o : Opt V)
        → get section k ≡ some o
        → (v : V) × (get end k ≡ some (record o { value = v }))
          × Sets plus (λ text. o.action text cfg_path) o.additive o.name o.value config v
    pub others : (k : String) → get section k ≡ none → get end k ≡ none
    pub known :
        All (λ opt. (is_empty opt.value ≡ true) ⊎ (elem opt.name (names_of section) ≡ true)) config

  -- One line with a value, for the option that it names
  abbrev IsNew : Opt V → Line → V → Type 0
  IsNew o opt v =
      (x : V) × (o.action opt.value cfg_path ≡ ok x)
      × (((opt.operator ≡ assign) × (v ≡ x))
          ⊎ ((opt.operator ≡ add) × (o.additive ≡ true) × (plus o.value x ≡ ok v)))

  new_value_lem :
      (o : Opt V) (opt : Line) (v : V) → new_value plus cfg_path o opt ≡ ok v → IsNew o opt v
  unfolding new_value
  new_value_lem o opt v h = elim (operator_cases opt.operator) [
    | inl is_assign ↦ (v, rw (new_value, is_assign) at h, inl (is_assign, refl))
    | inr is_add ↦ elim (Bool-cases o.additive) [
      | inl additive ↦
          let r =
            >>=-eq-ok (o.action opt.value cfg_path) (λ x. plus o.value x) {end = v}
              (rw (new_value, is_add, additive) at h) in
          (r.0, r.1, inr (is_add, additive, r.2))
      | inr single ↦ absurd (cc (rw (new_value, is_add, single) at h))
    ]
  ]

  -- A line without a value changes nothing; another changes the value of the option it names.
  Changed : Section V → Section V → Line → Type 0
  Changed section end opt =
      ((is_empty opt.value ≡ true) × (end ≡ section))
      ⊎ ((is_empty opt.value ≡ false)
          × (k : String) × (o : Opt V) × (v : V) × (find_option_by_name section opt.name
              ≡ some (k, o))
          × IsNew o opt v
          × (end ≡ put section k (record o { value = v })))

  handle_option_lem :
      (section end : Section V) (opt : Line)
      → handle_option plus cfg_path section opt ≡ ok end
      → Changed section end opt
  unfolding handle_option Changed
  handle_option_lem section end opt h = elim (Bool-cases (is_empty opt.value)) [
    | inl skipped ↦ inl (skipped, cc (rw (handle_option, skipped) at h))
    | inr valued ↦ elim (Option-cases (find_option_by_name section opt.name)) [
      | inl unknown ↦ absurd (cc (rw (handle_option, valued, unknown) at h))
      | inr ((k, o), found) ↦
          let v =
            >>=-eq-ok (new_value plus cfg_path o opt)
              (λ v. ok (put section k (record o { value = v }))) {end = end}
              (rw (handle_option, valued, found) at h) in
          inr (valued, k, o, v.0, found, new_value_lem o opt v.0 v.1, cc (v.2))
    ]
  ]

  -- What one line does to the value of an option.
  abbrev OneLine : Opt V → Line → V → Type 0
  OneLine o opt v =
      (((is_empty opt.value ≡ true) ⊎ (opt.name ≢ o.name)) × (v ≡ o.value))
      ⊎ ((is_empty opt.value ≡ false) × (opt.name ≡ o.name) × IsNew o opt v)

  -- After one line
  record IsStep (section end : Section V) (opt : Line) : Type 0 where
    distinct : IsDistinct end
    names : names_of end ≡ names_of section
    known : (is_empty opt.value ≡ true) ⊎ (elem opt.name (names_of section) ≡ true)
    others : (k : String) → get section k ≡ none → get end k ≡ none
    kept :
        (k : String) (o : Opt V)
        → get section k ≡ some o
        → (v : V) × (get end k ≡ some (record o { value = v })) × OneLine o opt v

  other_option :
      (section : Section V) (k j : String) {o p : Opt V}
      → k == j ≡ true
      → get section j ≡ some p
      → get section k ≡ some o
      → o ≡ p
  other_option section k j here there found = cc ((==_iff k j).0 here, there, found)

  put-IsStep :
      (section end : Section V) (opt : Line) (k : String) (o : Opt V) (v : V)
      → IsDistinct section
      → AreNamed section
      → is_empty opt.value ≡ false
      → find_option_by_name section opt.name ≡ some (k, o)
      → IsNew o opt v
      → IsStep section (put section k (record o { value = v })) opt
  put-IsStep section end opt k o v d u valued found new =
      let f = find_lem section opt.name k o d found in
      record {
        distinct = put-IsDistinct section k (record o { value = v }) d;
        names = names_of-put section k o v f.0;
        known = inr f.2;
        others = λ j gone. elim (Bool-cases (k == j)) [
          | inl here ↦ absurd (cc (gone, f.0, (==_iff k j).0 here))
          | inr away ↦ rw (get-put section k j (record o { value = v }), away) gone
        ];
        kept = λ j p there. elim (Bool-cases (k == j)) [
          | inl here ↦
              let is_o = other_option section k j here there f.0 in
              (
                v,
                rw (get-put section k j (record o { value = v }), here)
                    (ap (λ (q : Opt V). some (record q { value = v })) is_o),
                inr (
                  valued,
                  sym f.1 ∙ ap (λ (q : Opt V). q.name) is_o,
                  subst (λ (q : Opt V). IsNew q opt v) is_o new,
                ),
              )
          | inr away ↦ (
            p.value,
            rw (get-put section k j (record o { value = v }), away) there,
            inl (
              inr (λ same. cc (
                away,
                ==_self k,
                found_once section j k p o u there
                    (ap (λ (n : String). find_option_by_name section n) (sym same) ∙ found),
              )),
              refl,
            ),
          )
        ];
      }

  handle_option-IsStep :
      (section end : Section V) (opt : Line)
      → IsDistinct section
      → AreNamed section
      → handle_option plus cfg_path section opt ≡ ok end
      → IsStep section end opt
  unfolding Changed
  handle_option-IsStep section end opt d u h = elim (handle_option_lem section end opt h) [
    | inl (skipped, same) ↦
        subst (λ (s : Section V). IsStep section s opt) (sym same)
          (record {
            distinct = d;
            names = refl;
            known = inl skipped;
            others = λ k gone. gone;
            kept = λ k o there. (o.value, there, inl (inl skipped, refl));
          })
    | inr (valued, k, o, v, found, new, same) ↦
        subst (λ (s : Section V). IsStep section s opt) (sym same)
          (put-IsStep section end opt k o v d u valued found new)
  ]

  Sets-cons :
      (o : Opt V) (opt : Line) (config : List Line) (v w : V)
      → OneLine o opt v
      → Sets plus (λ text. o.action text cfg_path) o.additive o.name v config w
      → Sets plus (λ text. o.action text cfg_path) o.additive o.name o.value (opt ∷ config) w
  Sets-cons o opt config v w (inl (other, same)) rest = passed_over other (
      subst (λ (x : V). Sets plus (λ text. o.action text cfg_path) o.additive o.name x config w)
        same rest)
  Sets-cons o opt config v w (inr (valued, named, (x, e, inl (is_assign, same)))) rest =
      replaced x valued named is_assign e (
        subst (λ (y : V). Sets plus (λ text. o.action text cfg_path) o.additive o.name y config w)
          same rest)
  Sets-cons o opt config v w (inr (valued, named, (x, e, inr (is_add, additive, sum)))) rest =
      added x v valued named is_add additive e sum rest

  -- If handleOptions raises nothing on the lines of a section whose options have distinct names: the
  -- section has the options that it had, and no others; the value of each is what its lines make of
  -- it in their order, `=` by what the option's action makes of the line's value, and `+=`, where
  -- the option is additive, by the sum with that; and each line with a value names an option.
  pub handle_options-IsHandled :
      (config : List Line) (section end : Section V)
      → IsDistinct section
      → AreNamed section
      → handle_options plus cfg_path section config ≡ ok end
      → IsHandled section end config
  unfolding handle_options
  handle_options-IsHandled [] section end d u h =
      subst (λ (s : Section V). IsHandled section s []) {x = section} {y = end} (cc h)
        (record {
          kept = λ k o there. (o.value, there, ended);
          others = λ k gone. gone;
          known = tt;
        })
  handle_options-IsHandled (opt ∷ config) section end d u h =
      let r =
        >>=-eq-ok (handle_option plus cfg_path section opt)
          (λ s. handle_options plus cfg_path s config) {end = end} h in
      let s = handle_option-IsStep section r.0 opt d u r.1 in
      let ih =
        handle_options-IsHandled config r.0 end s.distinct
          (subst (λ (ns : List String). (n : String) → count n ns ≤ 1) (sym s.names) u) r.2 in
      record {
        kept = λ k o there.
            let a = s.kept k o there in
            let b = ih.kept k (record o { value = a.0 }) a.1 in
            (b.0, b.1, Sets-cons o opt config a.0 b.0 a.2 b.2);
        others = λ k gone. ih.others k (s.others k gone);
        known = (
          s.known,
          subst
              (λ (ns : List String).
                All (λ l. (is_empty l.value ≡ true) ⊎ (elem l.name ns ≡ true)) config)
              s.names ih.known,
        );
      }
