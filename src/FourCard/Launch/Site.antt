-- ===== src/FourCard/Launch/Site.antt =====
-- The environment that `run` gives to a worker makes sitecustomize start the bootstrap of msPTI.
use hang_analyzer.Prelude.{
  ℕ, ◌≡◌, refl, sym, ap, ◌∙◌, true, false, Option, some, [], ◌∷◌, ◌++◌, Text, Text-discrete, codes,
  text_eq, text_eq_iff, Dict, lookup, insert, lookup-insert_self, lookup-insert_ne,
}
use mathlib.Core.List.{append-nil}
use hang_analyzer.Outputs.Shown.{join}
use hang_analyzer.HangMspti.Site.{
  StartCall, starts, setting_of, site_values, site_call, customize_with, customize,
}
use hang_analyzer.FourCard.Launch.{RunOptions, is_given, within, variable, preload, worker_env}

abbrev get : Text → Dict Text Text → Option Text
get = lookup Text-discrete

-- A variable of another name stays.
get_other :
    (k j v : Text) (env : Dict Text Text)
    → text_eq k j ≡ false
    → get j (insert Text-discrete k v env) ≡ get j env
get_other k j v env h =
    lookup-insert_ne Text-discrete k j v env (λ e. cc (sym ((text_eq_iff k j).1 e) ∙ h))

site_values-starts :
    {Float Int : Type 0} {x : Option Float} {y : Option Int} {interval : Float} {capacity : Int}
    {directory library control_file used : Text}
    → x ≡ some interval
    → y ≡ some capacity
    → used ≡ control_file
    → site_values x y directory library used
      ≡ starts (record {
        directory = directory;
        library = library;
        interval_s = interval;
        capacity = capacity;
        control_file = control_file;
      })
unfolding site_values
site_values-starts p q r = rw (p, q, r) refl

-- The settings that a worker takes over from `run`.
abbrev pub interval_of : Dict Text Text → Text
interval_of environ = setting_of environ (codes "HANG_MSPTI_INTERVAL_S") (codes "0.5")

abbrev pub capacity_of : Dict Text Text → Text
capacity_of environ = setting_of environ (codes "HANG_MSPTI_CAPACITY") (codes "262144")

-- The library to preload, and behind it what was to be preloaded already.
abbrev pub preloaded : (library old : Text) → Text
preloaded library [] = library
preloaded library (c ∷ cs) = library ++ (codes " " ++ (c ∷ cs))

-- The call that sitecustomize is to make.
abbrev pub bootstrap_call : {Float Int : Type 0} → RunOptions → Float → Int → StartCall Float Int
bootstrap_call o interval capacity = record {
  directory = within o.output (codes "mspti");
  library = o.mspti_library;
  interval_s = interval;
  capacity = capacity;
  control_file = within o.output (codes "enable_prof");
}

module _ (o : RunOptions) (environ : Dict Text Text) (given : is_given o.mspti_library ≡ true) where
  abbrev env : Dict Text Text
  env = worker_env o environ

  env-enable :
      get (codes "HANG_MSPTI_ENABLE_FILE") env ≡ some (within o.output (codes "enable_prof"))
  unfolding worker_env
  env-enable = rw given (lookup-insert_self Text-discrete _ _ _)

  env-dir : get (codes "HANG_MSPTI_DIR") env ≡ some (within o.output (codes "mspti"))
  unfolding worker_env text_eq
  env-dir = rw given (get_other _ _ _ _ refl ∙ lookup-insert_self Text-discrete _ _ _)

  env-library : get (codes "HANG_MSPTI_LIBRARY") env ≡ some o.mspti_library
  unfolding worker_env text_eq
  env-library =
      rw given
        (get_other _ _ _ _ refl ∙ (get_other _ _ _ _ refl ∙ lookup-insert_self Text-discrete _ _ _))

  env-path :
      get (codes "PYTHONPATH") env
      ≡ some (
          within (within o.root (codes "python")) (codes "bootstrap")
          ++ (codes ":" ++ (o.root ++ (codes ":" ++ setting_of environ (codes "PYTHONPATH") []))))
  unfolding worker_env text_eq variable setting_of join
  env-path = rw given (
      get_other _ _ _ _ refl
      ∙ (get_other _ _ _ _ refl
          ∙ (get_other _ _ _ _ refl ∙ lookup-insert_self Text-discrete _ _ _)))

  env-preload :
      get (codes "LD_PRELOAD") env
      ≡ some (preloaded o.mspti_preload (setting_of environ (codes "LD_PRELOAD") []))
  unfolding worker_env text_eq variable setting_of preload
  env-preload = rw given (
      get_other _ _ _ _ refl
      ∙ (get_other _ _ _ _ refl
          ∙ (get_other _ _ _ _ refl
              ∙ (get_other _ _ _ _ refl
                  ∙ (lookup-insert_self Text-discrete _ _ _
                      ∙ ap some (preload-preloaded (variable o (codes "LD_PRELOAD") environ)))))))
    where
      preload-preloaded : (old : Text) → preload o old ≡ preloaded o.mspti_preload old
      preload-preloaded [] = append-nil o.mspti_preload
      preload-preloaded (c ∷ cs) = refl

  -- Any other variable is that of `run` itself.
  env-rest :
      (name : Text)
      → text_eq (codes "HANG_MSPTI_ENABLE_FILE") name ≡ false
      → text_eq (codes "HANG_MSPTI_DIR") name ≡ false
      → text_eq (codes "HANG_MSPTI_LIBRARY") name ≡ false
      → text_eq (codes "PYTHONPATH") name ≡ false
      → text_eq (codes "LD_PRELOAD") name ≡ false
      → get name env ≡ get name environ
  unfolding worker_env
  env-rest name a b c d e = rw given (
      get_other _ _ _ _ a
      ∙ (get_other _ _ _ _ b ∙ (get_other _ _ _ _ c ∙ (get_other _ _ _ _ d ∙ get_other _ _ _ _ e))))

  setting_of-env :
      (name default : Text)
      → get name env ≡ get name environ
      → setting_of env name default ≡ setting_of environ name default
  unfolding setting_of
  setting_of-env name default same = rw (same, setting_of) refl

  setting_of-found :
      (name default : Text) {value : Text}
      → get name env ≡ some value
      → setting_of env name default ≡ value
  unfolding setting_of
  setting_of-found name default found = rw (found, setting_of) refl

  module _ {Float Int : Type 0} (float : Text → Option Float) (int : Text → Option Int) where
    site_call-starts :
        {interval : Float} {capacity : Int}
        → float (interval_of environ) ≡ some interval
        → int (capacity_of environ) ≡ some capacity
        → site_call float int env (within o.output (codes "mspti")) o.mspti_library
          ≡ starts (bootstrap_call o interval capacity)
    unfolding site_call site_values text_eq
    site_call-starts {interval} {capacity} f n =
        let passed_interval : float (setting_of env (codes "HANG_MSPTI_INTERVAL_S") (codes "0.5"))
            ≡ some interval =
          ap float (setting_of-env _ _ (env-rest _ refl refl refl refl refl)) ∙ f in
        let passed_capacity : int (setting_of env (codes "HANG_MSPTI_CAPACITY") (codes "262144"))
            ≡ some capacity =
          ap int (setting_of-env _ _ (env-rest _ refl refl refl refl refl)) ∙ n in
        site_values-starts passed_interval passed_capacity
          (setting_of-found (codes "HANG_MSPTI_ENABLE_FILE") (codes "/home/enable_prof") env-enable)

    customize-starts :
        {interval : Float} {capacity : Int} (c : ℕ) (cs : Text)
        → within o.output (codes "mspti") ≡ c ∷ cs
        → float (interval_of environ) ≡ some interval
        → int (capacity_of environ) ≡ some capacity
        → customize float int env ≡ starts (bootstrap_call o interval capacity)
    unfolding customize customize_with
    customize-starts c cs q f n =
        ap (λ d. customize_with float int d (get (codes "HANG_MSPTI_LIBRARY") env) env)
          (setting_of-found (codes "HANG_MSPTI_DIR") [] env-dir ∙ q)
        ∙ (ap (λ l. customize_with float int (c ∷ cs) l env) env-library
            ∙ (ap (λ d. site_call float int env d o.mspti_library) (sym q) ∙ site_call-starts f n))

within_cons : (d n : Text) → (c : ℕ) × (cs : Text) × (within d n ≡ c ∷ cs)
within_cons [] n = (_, _, refl)
within_cons (c ∷ cs) n = (_, _, refl)

-- If the example is given the library of msPTI, the environment that `run` makes for a worker starts the
-- path of modules with the directory of sitecustomize, then the root, then the path of `run` itself,
-- and preloads the given library before what `run` itself preloads. sitecustomize in that
-- environment starts the bootstrap: with the library of msPTI, the directory and the control file
-- that `run` has made, and the interval and capacity of `run`'s own environment or their defaults,
-- if these are numbers.
pub customize-worker_env :
    (o : RunOptions) (environ : Dict Text Text) {Float Int : Type 0} (float : Text → Option Float)
    (int : Text → Option Int) {interval : Float} {capacity : Int}
    → is_given o.mspti_library ≡ true
    → float (interval_of environ) ≡ some interval
    → int (capacity_of environ) ≡ some capacity
    → (lookup Text-discrete (codes "PYTHONPATH") (worker_env o environ)
        ≡ some (
            within (within o.root (codes "python")) (codes "bootstrap")
            ++ (codes ":"
                ++ (o.root ++ (codes ":" ++ setting_of environ (codes "PYTHONPATH") [])))))
      × (lookup Text-discrete (codes "LD_PRELOAD") (worker_env o environ)
          ≡ some (preloaded o.mspti_preload (setting_of environ (codes "LD_PRELOAD") [])))
      × (customize float int (worker_env o environ) ≡ starts (bootstrap_call o interval capacity))
customize-worker_env o environ float int given f n =
    let (c, cs, q) = within_cons o.output (codes "mspti") in
    (
      env-path o environ given,
      env-preload o environ given,
      customize-starts o environ given float int c cs q f n,
    )
