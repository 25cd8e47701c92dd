-- ===== src/Console/Diagnostics/Tests.antt =====
-- A host with spaces around it is asked about without them.
use senix.Prelude.{false, codes, [], ◌∷◌, none, ◌≡◌, refl}
use senix.Locale.{text}
use senix.Console.Diagnostics.{
  Diagnosis, diagnose, diagnosis_request, trim_start, trim_end, trim, step,
}

abbrev typed : Diagnosis
typed = record {
  host = codes " a.example ";
  path = codes "/x y ";
  report = none;
  busy = false;
  error = text [];
}

asked : (step typed diagnose).1 ≡ diagnosis_request (codes "a.example") (codes "/x y") ∷ []
unfolding step trim trim_start trim_end
asked = refl
