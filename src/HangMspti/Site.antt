-- ===== src/HangMspti/Site.antt =====
-- python/bootstrap/sitecustomize.py: which call of `start` the environment asks for. `float` and `int` are
-- parameters.
use hang_analyzer.Prelude.{Option, none, some, [], ◌∷◌, Text, Text-discrete, codes, Dict, lookup}

-- The arguments of `start`.
pub record StartCall (Float Int : Type 0) : Type 0 where
  pub directory : Text
  pub library : Text
  pub interval_s : Float
  pub capacity : Int
  pub control_file : Text

-- Nothing is done, an exception leaves the module, or `start` is called.
pub data Site (Float Int : Type 0) : Type 0 where
  untouched : Site Float Int
  key_error value_error : (name : Text) → Site Float Int
  starts : StartCall Float Int → Site Float Int

-- `os.environ.get(name, default)`
unfoldable pub setting_of : Dict Text Text → (name default : Text) → Text
unfolding lookup
setting_of environ name default = elim (lookup Text-discrete name environ) [
  | none ↦ default
  | some value ↦ value
]

-- The conversions, the interval first, and the call.
unfoldable pub site_values :
    {Float Int : Type 0}
    → Option Float
    → Option Int
    → (directory library control_file : Text) → Site Float Int
site_values none capacity directory library control_file =
    value_error (codes "HANG_MSPTI_INTERVAL_S")
site_values (some interval) none directory library control_file =
    value_error (codes "HANG_MSPTI_CAPACITY")
site_values (some interval) (some capacity) directory library control_file = starts (record {
  directory = directory;
  library = library;
  interval_s = interval;
  capacity = capacity;
  control_file = control_file;
})

module _ {Float Int : Type 0} (float : Text → Option Float) (int : Text → Option Int) where
  -- The arguments, once the directory and the library are known.
  unfoldable pub site_call : Dict Text Text → (directory library : Text) → Site Float Int
  unfolding setting_of site_values
  site_call environ directory library =
      site_values (float (setting_of environ (codes "HANG_MSPTI_INTERVAL_S") (codes "0.5")))
        (int (setting_of environ (codes "HANG_MSPTI_CAPACITY") (codes "262144"))) directory library
        (setting_of environ (codes "HANG_MSPTI_ENABLE_FILE") (codes "/home/enable_prof"))

  -- The test of the directory, then `os.environ["HANG_MSPTI_LIBRARY"]`.
  unfoldable pub customize_with :
      (directory : Text) (library : Option Text) → Dict Text Text → Site Float Int
  unfolding site_call
  customize_with [] library environ = untouched
  customize_with (c ∷ cs) none environ = key_error (codes "HANG_MSPTI_LIBRARY")
  customize_with (c ∷ cs) (some library) environ = site_call environ (c ∷ cs) library

  unfoldable pub customize : Dict Text Text → Site Float Int
  unfolding customize_with setting_of lookup
  customize environ =
      customize_with (setting_of environ (codes "HANG_MSPTI_DIR") [])
        (lookup Text-discrete (codes "HANG_MSPTI_LIBRARY") environ) environ
