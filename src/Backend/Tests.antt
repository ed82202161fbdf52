-- ===== src/Backend/Tests.antt =====
-- The extension is missing at the first import and would be there later.
use ladybug_python.Base.{◌≡◌, refl, [], ◌∷◌}
use ladybug_python.Outcome.{ok}
use ladybug_python.Backend.{Modules, loaded, failed, unloaded, get_capi_module, ask}

-- The other module is imported again after a failure.
capi_retries :
    (get_capi_module (loaded 4) (get_capi_module (failed "no library") unloaded).1).0 ≡ ok 4
unfolding get_capi_module
capi_retries = refl

abbrev asked : Modules
asked = ask (failed "no extension" ∷ loaded 7 ∷ []) unloaded
