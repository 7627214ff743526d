-- ===== src/Settings/Loading.antt =====
-- config/settings.py: reloading.
use yellowbullv.Shared.{String, ◌≡◌, refl, ◌⊎◌, inl, inr, Option, some, true, false, str_or}
use yellowbullv.Shared.Json.{Json}
use yellowbullv.Settings.{
  Cached, Loaded, loaded, load_error, has_loaded, built, stored, path_or, load_settings,
  reload_settings,
}

module _ {S : Type 0} (sub : String → String) (read : String → Loaded Json)
    (construct : Json → Loaded S) (env_path : String) where
  -- A reload either reports success, and then the settings of the path that it was given, or else
  -- of the last path, or else of the environment's, could be built and are cached with that path;
  -- or it reports failure and leaves the cache alone.
  pub reload_settings_lem :
      (config_path : Option String) (c : Cached S)
      → ((reload_settings sub read construct env_path config_path c).0 ≡ true)
          × ((s : S) × (built sub read construct env_path
                  (read (path_or config_path (str_or c.path env_path)))
                ≡ loaded s)
              × ((reload_settings sub read construct env_path config_path c).1 ≡ record {
                settings = some s;
                path = path_or config_path (str_or c.path env_path);
              }))
        ⊎ ((reload_settings sub read construct env_path config_path c).0 ≡ false)
          × ((reload_settings sub read construct env_path config_path c).1 ≡ c)
  unfolding load_settings reload_settings
  reload_settings_lem config_path c = cases (built sub read construct env_path (read path)) refl
    where
      path : String
      path = path_or config_path (str_or c.path env_path)

      cases :
          (o : Loaded S)
          → built sub read construct env_path (read path) ≡ o
          → ((has_loaded (stored sub read construct env_path path o c).0 ≡ true)
              × ((s : S) × (built sub read construct env_path (read path) ≡ loaded s)
                  × ((stored sub read construct env_path path o c).1
                      ≡ record { settings = some s; path = path })))
            ⊎ ((has_loaded (stored sub read construct env_path path o c).0 ≡ false)
                × ((stored sub read construct env_path path o c).1 ≡ c))
      cases (loaded s) e = inl (refl, (s, e, refl))
      cases (load_error x) e = inr (refl, refl)
