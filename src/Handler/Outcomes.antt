-- ===== src/Handler/Outcomes.antt =====
-- internal/handler/question.go and answer.go: the responses, and the tables at each of them.
use subnet_benchmark.Prelude.{
  ℕ, ◌≡◌, ◌∙◌, refl, sym, ap, subst, ◌⊎◌, inl, inr, Bool, true, false, ◌||◌, Option, none, some,
  String, str_eq, str_eq_iff, Bool-cases, if◌then◌else◌,
}
use subnet_benchmark.Model.{Error, db_error, user_error, internal_error, Result, ok, err}
use subnet_benchmark.Store.{Db, World, M, pure}
use subnet_benchmark.Store.Meets.{Ends}
use subnet_benchmark.Service.Questions.{QuestionService, submit_question}
use subnet_benchmark.Service.Questions.Checks.{submit_question_lem}
use subnet_benchmark.Handler.{Http, written, error_status}
use subnet_benchmark.Handler.Submissions.{
  QuestionBody, reply_of, respond, question_status, question_request, question_body,
  handle_submit_question,
}
use subnet_benchmark.Handler.Responses.{asked, Responds, Fault, QuestionResponse}

module _ {A : Type 0} (R : Http A → Db → Type 0) where
  respond-Responds :
      (status_of : Error → ℕ) (success : ℕ) (m : M A) (w : World)
      → ((a : A) (w' : World) → m w ≡ (ok a, w') → R (written success a) w'.db)
      → ((e : Error) (w' : World) → m w ≡ (err e, w') → R (error_status (status_of e)) w'.db)
      → Responds R (respond status_of success m w)
  unfolding respond
  respond-Responds status_of success m w good bad = both (m w) refl
    where
      both : (r : Result A × World) → m w ≡ r → Responds R (reply_of status_of success r)
      both (ok a, w') e = good a w' e
      both (err x, w') e = bad x w' e

  if-Responds :
      (b : Bool) (status : ℕ) (m : M (Http A)) (w : World)
      → (b ≡ true → R (error_status status) w.db)
      → (b ≡ false → Responds R (m w))
      → Responds R ((if b then pure (error_status status) else m) w)
  if-Responds true status m w refused_ h = refused_ refl
  if-Responds false status m w refused_ h = h refl

other_text : (s t : String) → str_eq s t ≡ false → ¬ (s ≡ t)
other_text s t e same = no ((sym e) ∙ (str_eq_iff s t).1 same)
  where
    no : false ≡ true → ⊥
    no e = cc

missing :
    (a b c : String)
    → (str_eq a "" || str_eq b "" || str_eq c "") ≡ true
    → (a ≡ "") ⊎ ((b ≡ "") ⊎ (c ≡ ""))
missing a b c e = elim (Bool-cases (str_eq a "")) [
  | inl one ↦ inl ((str_eq_iff a "").0 one)
  | inr not_a ↦ elim (Bool-cases (str_eq b "")) [
    | inl two ↦ inr (inl ((str_eq_iff b "").0 two))
    | inr not_b ↦ inr (inr ((str_eq_iff c "").0 (rw (not_a, not_b) at e)))
  ]
]

module _ (svc : QuestionService) (now : ℕ) (worker : String) (b : QuestionBody) (w : World) where
  refused_question :
      (e : Error) (d : Db)
      → (submit_question svc now (asked worker b) w).0 ≡ err e
      → d ≡ w.db
      → QuestionResponse svc now worker (some b) w (error_status (question_status e)) d
  refused_question db_error d r same =
      QuestionResponse.refused b db_error 500 d refl r (λ e. cc) Fault.of_database same
  refused_question internal_error d r same =
      QuestionResponse.refused b internal_error 500 d refl r (λ e. cc) Fault.of_server same
  refused_question (user_error code) d r same =
      elim (Bool-cases (str_eq code "not_enough_miners")) [
        | inl few ↦
            let it = (str_eq_iff code "not_enough_miners").0 few in
            rw few
              (QuestionResponse.short_of_miners b d refl (r ∙ ap (λ c. err (user_error c)) it) same)
        | inr other ↦ rw other (
            QuestionResponse.refused b (user_error code) 400 d refl r
              (λ e. other_text _ _ other (code_of e)) (Fault.of_user code) same)
      ]
    where
      code_of : user_error code ≡ user_error "not_enough_miners" → code ≡ "not_enough_miners"
      code_of e = cc

  respond_question :
      ¬ (worker ≡ "")
      → Responds
          (QuestionResponse svc now worker (some b) w)
          (respond question_status 201 (submit_question svc now (question_request worker b)) w)
  respond_question known =
      respond-Responds _ question_status 201 (submit_question svc now (asked worker b)) w
        (λ id w' e.
          let (new, d, accepted) =
            subst (Ends _ _) e (submit_question_lem svc now (asked worker b) w) in
          rw new (QuestionResponse.stored b w'.db known refl accepted d))
        (λ x w' e.
          refused_question x w'.db (ap (λ r. r.0) e)
            (subst (Ends _ _) e (submit_question_lem svc now (asked worker b) w)))

pub handle_submit_question_lem :
    (svc : QuestionService) (now : ℕ) (worker : String) (body : Option QuestionBody) (w : World)
    → Responds
        (QuestionResponse svc now worker body w)
        (handle_submit_question svc now worker body w)
unfolding handle_submit_question
handle_submit_question_lem svc now worker body w =
    if-Responds _ (str_eq worker "") 401 _ w
      (λ e. QuestionResponse.no_worker ((str_eq_iff worker "").0 e))
      (λ e. rest body (other_text _ _ e))
  where
    rest :
        (o : Option QuestionBody)
        → ¬ (worker ≡ "")
        → Responds (QuestionResponse svc now worker o w) (question_body svc now worker o w)
    rest none known = QuestionResponse.not_read known refl
    rest (some b) known =
        if-Responds _ (str_eq b.bs_id "" || str_eq b.question "" || str_eq b.answer "") 400 _ w
          (λ e. QuestionResponse.incomplete b known refl (missing _ _ _ e))
          (λ e. respond_question svc now worker b w known)
