-- ===== src/Console/Credentials/Laws.antt =====
-- What a revocation asks of the owner and of the server.
use senix.Prelude.{
  Bool, true, false, Text, codes, [], ◌∷◌, ◌++◌, Option, none, some, All, ◌≡◌, refl, ap,
}
use senix.Console.Effects.{call, confirm}
use senix.Sse.Reference.{feed}
use senix.Sse.Reader.Faithful.{IsCharacter}
use senix.Console.Uri.{encode_uri_component}
use senix.Console.Uri.RoundTrip.{unescape, encode_uri_component-decodes}
use senix.Console.Uri.Segment.{IsPlain, encode_uri_component-IsPlain}
use senix.Console.Credentials.{Credential, revoke, question, request_to, step}

-- A segment of a path that stands for an id: none of its characters ends the segment, and decoding
-- it gives the id.
pub record IsSegmentOf (id segment : Text) : Type 0 where
  pub plain : All IsPlain segment
  pub decodes : feed [] (unescape segment) ≡ (id, [])

encoded :
    (id : Text)
    → All IsCharacter id
    → (t : Text) × (encode_uri_component id ≡ some t) × IsSegmentOf id t
encoded id h =
    let (t, run, back) = encode_uri_component-decodes id h in
    (t, run, record { plain = encode_uri_component-IsPlain id t h run; decodes = back })

-- A click on the button for revocation asks the owner. If the owner does not agree nothing more
-- happens. Else, for an id whose code units are all below U+D800, one request is sent, to delete the
-- credential whose id the last segment of the path stands for.
pub revoke-IsSegmentOf :
    (malformed : Text) (is_open : Bool) (c : Credential)
    → All IsCharacter c.credential_id
    → ((step malformed is_open (revoke c false)).1 ≡ confirm (question c) ∷ [])
      × ((segment : Text) × ((step malformed is_open (revoke c true)).1
            ≡ confirm (question c)
              ∷ call (codes "/api/v1/credentials/" ++ segment) "DELETE" none
              ∷ [])
          × IsSegmentOf c.credential_id segment)
unfolding step
revoke-IsSegmentOf malformed is_open c h =
    let (t, run, is_segment) = encoded c.credential_id h in
    (
      refl,
      (t, ap (λ (o : Option Text). confirm (question c) ∷ request_to malformed o) run, is_segment),
    )
