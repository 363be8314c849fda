-- ===== src/NomineeClaim/Order.antt =====
-- The order of the requests of a submission in app/nominee/verify/[token]/page.tsx.
use secure_vault.NomineeClaim.{
  Sent, claim_sent, document_sent, completion_sent, Submission, StepReply, step_ok, step_refused,
  step_failed, submit_claim, upload_document, complete_claim, says_exists,
}
use secure_vault.Json.{Json}
use secure_vault.Prelude.{
  is_some, String, Bool, true, false, Option, none, some, [], ◌∷◌, ◌≡◌, refl, any, ◌&&◌, sym, ap,
}

-- The claim has been taken, or the server says that there is one.
abbrev pub claim_stands : StepReply → Bool
claim_stands step_ok = true
claim_stands (step_refused detail) = elim (says_exists detail) [ none ↦ false | some b ↦ b ]
claim_stands step_failed = false

abbrev pub is_ok : StepReply → Bool
is_ok step_ok = true
is_ok r = false

abbrev pub is_completion : Sent → Bool
is_completion completion_sent = true
is_completion s = false

abbrev pub is_document : Sent → Bool
is_document document_sent = true
is_document s = false

abbrev pub has_reply : StepReply → Bool
has_reply step_failed = false
has_reply r = true

-- What the submission does, by an independent account of its three replies.
pub record InOrder (claim upload complete : StepReply) (s : Submission) : Type 0 where
  pub document : any is_document s.sent ≡ claim_stands claim
  pub completion : any is_completion s.sent ≡ (claim_stands claim && is_ok upload)
  pub leaves : is_some s.goes_to ≡ (claim_stands claim && is_ok upload && has_reply complete)

upload_document-InOrder :
    (token : String) (claim upload complete : StepReply)
    → claim_stands claim ≡ true
    → InOrder claim upload complete (upload_document token upload complete)
unfolding upload_document complete_claim
upload_document-InOrder token claim step_ok step_ok h = record {
  document = sym h;
  completion = rw h refl;
  leaves = rw h refl;
}
upload_document-InOrder token claim step_ok (step_refused detail) h = record {
  document = sym h;
  completion = rw h refl;
  leaves = rw h refl;
}
upload_document-InOrder token claim step_ok step_failed h = record {
  document = sym h;
  completion = rw h refl;
  leaves = rw h refl;
}
upload_document-InOrder token claim (step_refused detail) complete h = record {
  document = sym h;
  completion = rw h refl;
  leaves = rw h refl;
}
upload_document-InOrder token claim step_failed complete h = record {
  document = sym h;
  completion = rw h refl;
  leaves = rw h refl;
}

-- A submission that ends with its claim, which does not stand.
early_end-InOrder :
    (claim upload complete : StepReply) (shown : Json)
    → claim_stands claim ≡ false
    → InOrder claim upload complete
        (record { sent = claim_sent ∷ []; shown = shown; goes_to = none })
early_end-InOrder claim upload complete shown h = record {
  document = sym h;
  completion = rw h refl;
  leaves = rw h refl;
}

refused_stands :
    (detail : Option Json) (o : Option Bool)
    → says_exists detail ≡ o
    → claim_stands (step_refused detail) ≡ elim o [ none ↦ false | some b ↦ b ]
refused_stands detail o e = ap (λ (x : Option Bool). elim x [ none ↦ false | some b ↦ b ]) e

submit_refused-InOrder :
    (token : String) (detail : Option Json) (upload complete : StepReply) (o : Option Bool)
    → says_exists detail ≡ o
    → InOrder
        (step_refused detail)
        upload
        complete
        (submit_claim token (step_refused detail) upload complete)
unfolding submit_claim
submit_refused-InOrder token detail upload complete none e =
    rw (submit_claim, e)
      (early_end-InOrder (step_refused detail) upload complete _ (refused_stands detail none e))
submit_refused-InOrder token detail upload complete (some true) e =
    rw (submit_claim, e)
      (upload_document-InOrder token (step_refused detail) upload complete
        (refused_stands detail (some true) e))
submit_refused-InOrder token detail upload complete (some false) e =
    rw (submit_claim, e)
      (early_end-InOrder (step_refused detail) upload complete _
        (refused_stands detail (some false) e))

-- The death certificate is sent exactly if the claim is taken or exists already, the completion exactly if the
-- certificate is taken too, and the page leaves for the status exactly if the completion has had a reply.
pub submit_claim-InOrder :
    (token : String) (claim upload complete : StepReply)
    → InOrder claim upload complete (submit_claim token claim upload complete)
unfolding submit_claim
submit_claim-InOrder token step_ok upload complete =
    upload_document-InOrder token step_ok upload complete refl
submit_claim-InOrder token (step_refused detail) upload complete =
    submit_refused-InOrder token detail upload complete (says_exists detail) refl
submit_claim-InOrder token step_failed upload complete = record {
  document = refl;
  completion = refl;
  leaves = refl;
}
