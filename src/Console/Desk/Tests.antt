-- ===== src/Console/Desk/Tests.antt =====
-- A load whose last answer is an expired session, and one with no certificate store.
use senix.Prelude.{ℕ, Text, codes, List, [], ◌∷◌, none, some, ◌≡◌, refl, ◌≢◌, false, true}
use senix.Decimal.{decimal}
use senix.Console.Api.{Value, null, string, array, nil, Answer, answered, failed, ApiError}
use senix.Console.Desk.{
  Part, instances, config, changes, credentials, certificates, audit, Desk, signed_in, signed_out,
  gather, load_all,
}
use senix.Console.Desk.Laws.{IsWhole, load_all-IsWhole}

abbrev fault : Text → ℕ → ApiError
fault code status = record {
  message = [];
  code = some (string code);
  evidence = none;
  status = some status;
}

abbrev desk : Desk
desk = record {
  owner = signed_in (codes "root");
  lists = record {
    instances = null;
    current = null;
    changes = null;
    credentials = null;
    certificates = null;
    certificate_store_enabled = true;
    audit = null;
  };
  toast = none;
}

abbrev five : List (Part × Answer Value)
five =
    (audit, answered (string (codes "a")))
    ∷ (instances, answered (string (codes "b")))
    ∷ (certificates, failed (fault (codes "CERTIFICATE_STORE_DISABLED") 503))
    ∷ (config, answered (string (codes "c")))
    ∷ (changes, answered (string (codes "d")))
    ∷ []

expired : (load_all decimal ((credentials, failed (fault [] 401)) ∷ five) desk).owner ≡ signed_out
unfolding load_all gather
expired = refl

loaded :
    (load_all decimal ((credentials, answered null) ∷ five) desk).lists.certificate_store_enabled
    ≡ false
unfolding load_all gather
loaded = refl

-- No answer is an empty list.
abbrev IsMeant : Part × Answer Value → Type 0
IsMeant (part, answer) = answer ≢ answered (array nil)

load_all-IsWhole_example :
    IsWhole IsMeant desk.lists (load_all decimal ((credentials, answered null) ∷ five) desk).lists
load_all-IsWhole_example =
    load_all-IsWhole IsMeant decimal ((credentials, answered null) ∷ five) desk
      ((cc), ((cc), ((cc), ((cc), ((cc), ((cc), tt))))))
