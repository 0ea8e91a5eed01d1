-- ===== src/Pipeline/Actions/AddCommand/Laws.antt =====
-- actions/add_command_action.py: only commands that the user may run get a link.
use local_ai_rag.Prelude.{
  String, Option, none, arith, ◌≢◌, ◌∙◌, ◌≡◌, refl, ◌⊎◌, inl, inr, true, some, List, [], ◌∷◌, All,
  Bool-cases, Option-cases, List-cases, some-injective, subst, ap,
}
use local_ai_rag.Prelude.Options.{◌>>=◌}
use local_ai_rag.Value.{null, Builtins}
use local_ai_rag.Pipeline.Result.{ok, Result-cases}
use local_ai_rag.Pipeline.Definitions.{StepDef}
use local_ai_rag.Pipeline.State.{State}
use local_ai_rag.Pipeline.Validator.Rules.{elem}
use local_ai_rag.Access.Policies.{none_if_empty}
use local_ai_rag.Access.Commands.{
  Command, Diagrams, show_diagram, ea_export, command_type, get_command, default_commands,
  can_execute, build_link,
}
use local_ai_rag.Pipeline.Actions.AddCommand.{
  AnswerField, final_answer, answer_translated, answer_neutral, last_model_response,
  select_base_text, write_back, offer, offers, types_of, with_links, extract_command_types,
  add_command,
}

-- A command's own type is the permission that it needs.
can_execute-elem :
    (c : Command) (s : State)
    → can_execute c s ≡ true
    → elem (command_type c) s.allowed_commands ≡ true
unfolding can_execute
can_execute-elem show_diagram s h = h
can_execute-elem ea_export s h = h

-- The user may run a command of this type.
abbrev pub IsPermitted : State → String → Type 0
unfolding elem
IsPermitted s kind = elem kind s.allowed_commands ≡ true

-- An offered link is the one that its command builds for the answer, and the user may run the command.
abbrev pub IsOffered : Diagrams → String → State → Command × String → Type 0
IsOffered diagrams base s (c, l) =
    IsPermitted s (command_type c) × ((build_link diagrams c base s >>= none_if_empty) ≡ some l)

offer-IsOffered :
    (diagrams : Diagrams) (base kind : String) (s : State) (c : Command) (l : String)
    → offer diagrams base s kind ≡ some (c, l)
    → IsOffered diagrams base s (c, l)
unfolding offer
offer-IsOffered diagrams base kind s c l h =
    elim (Result-cases (get_command kind default_commands)) [
      | inl (e, unknown) ↦ cc (rw (unknown, offer) at h)
      | inr (d, known) ↦ elim (Bool-cases (can_execute d s)) [
        | inr refused ↦ cc (rw (known, refused, offer) at h)
        | inl allowed ↦ elim (Option-cases (build_link diagrams d base s >>= none_if_empty)) [
          | inl no_link ↦ cc (rw (known, allowed, no_link, offer) at h)
          | inr (k, built) ↦
              subst (IsOffered diagrams base s)
                (some-injective (rw (known, allowed, built, offer) at h))
                (can_execute-elem d s allowed, built)
        ]
      ]
    ]

offers-IsOffered :
    (diagrams : Diagrams) (base : String) (s : State) (kinds : List String)
    → All (IsOffered diagrams base s) (offers diagrams base s kinds)
unfolding offers
offers-IsOffered diagrams base s [] = tt
offers-IsOffered diagrams base s (kind ∷ kinds) =
    let later = offers-IsOffered diagrams base s kinds in
    elim (Option-cases (offer diagrams base s kind)) [
      | inl nothing ↦ rw (nothing, offers) later
      | inr ((c, l), made) ↦
          rw (made, offers) (offer-IsOffered diagrams base kind s c l made, later)
    ]

offers-none :
    (diagrams : Diagrams) (base : String) (s : State) (kinds : List String)
    → offers diagrams base s kinds ≡ []
    → All (λ kind. offer diagrams base s kind ≡ none) kinds
unfolding offers
offers-none diagrams base s [] h = tt
offers-none diagrams base s (kind ∷ kinds) h = elim (Option-cases (offer diagrams base s kind)) [
  | inl nothing ↦ (nothing, offers-none diagrams base s kinds (rw (nothing, offers) at h))
  | inr (o, made) ↦ cc (rw (made, offers) at h)
]

-- What stands in a field of the answer.
abbrev pub text_in : AnswerField → State → Option String
text_in final_answer s = s.final_answer
text_in answer_translated s = s.answer_translated
text_in answer_neutral s = s.answer_neutral
text_in last_model_response s = s.last_model_response

-- What the action shows and records: the links of permitted commands behind the answer, in the field where
-- the answer stood, the types of exactly these commands, and nothing else.
pub record Shows (diagrams : Diagrams) (s after : State) : Type 0 where
  pub base : String
  pub into : AnswerField
  pub first : Command × String
  pub rest : List (Command × String)
  pub answered : text_in into s ≡ some base
  pub offered : All (IsOffered diagrams base s) (first ∷ rest)
  pub recorded : after.commands_applied ≡ types_of (first ∷ rest)
  pub shown : text_in into after ≡ some (with_links diagrams base (first ∷ rest))
  pub others : (f : AnswerField) → f ≢ into → text_in f after ≡ text_in f s
  pub only :
      after
      ≡ write_back into
          (with_links diagrams base (first ∷ rest))
          (record s { commands_applied = types_of (first ∷ rest) })

text_in-write_back :
    (into : AnswerField) (t : String) (s : State) → text_in into (write_back into t s) ≡ some t
unfolding write_back
text_in-write_back final_answer t s = refl
text_in-write_back answer_translated t s = refl
text_in-write_back answer_neutral t s = refl
text_in-write_back last_model_response t s = refl

recorded_by :
    (into : AnswerField) (t : String) (s : State)
    → (write_back into t s).commands_applied ≡ s.commands_applied
unfolding write_back
recorded_by final_answer t s = refl
recorded_by answer_translated t s = refl
recorded_by answer_neutral t s = refl
recorded_by last_model_response t s = refl

other_texts :
    (f into : AnswerField) (t : String) (s : State)
    → f ≢ into
    → text_in f (write_back into t s) ≡ text_in f s
unfolding write_back
other_texts final_answer final_answer t s ne = absurd (ne refl)
other_texts answer_translated answer_translated t s ne = absurd (ne refl)
other_texts answer_neutral answer_neutral t s ne = absurd (ne refl)
other_texts last_model_response last_model_response t s ne = absurd (ne refl)
other_texts final_answer answer_translated t s ne = refl
other_texts final_answer answer_neutral t s ne = refl
other_texts final_answer last_model_response t s ne = refl
other_texts answer_translated final_answer t s ne = refl
other_texts answer_translated answer_neutral t s ne = refl
other_texts answer_translated last_model_response t s ne = refl
other_texts answer_neutral final_answer t s ne = refl
other_texts answer_neutral answer_translated t s ne = refl
other_texts answer_neutral last_model_response t s ne = refl
other_texts last_model_response final_answer t s ne = refl
other_texts last_model_response answer_translated t s ne = refl
other_texts last_model_response answer_neutral t s ne = refl

none_if_empty-eq-some : (t u : String) → none_if_empty t ≡ some u → t ≡ u
none_if_empty-eq-some t u h = ground arith

bind_text : (o : Option String) (u : String) → (o >>= none_if_empty) ≡ some u → o ≡ some u
bind_text none u h = cc h
bind_text (some t) u h = ap some (none_if_empty-eq-some t u h)

select_base_text-text_in :
    (s : State) (base : String) (into : AnswerField)
    → select_base_text s ≡ some (base, into)
    → text_in into s ≡ some base
unfolding select_base_text
select_base_text-text_in s base into h = elim (Option-cases (s.final_answer >>= none_if_empty)) [
  | inr (t, e) ↦
      chosen t final_answer (rw (e, select_base_text) at h) (bind_text s.final_answer t e)
  | inl a ↦ elim (Option-cases (s.answer_translated >>= none_if_empty)) [
    | inr (t, e) ↦
        chosen t answer_translated (rw (a, e, select_base_text) at h)
          (bind_text s.answer_translated t e)
    | inl b ↦ elim (Option-cases (s.answer_neutral >>= none_if_empty)) [
      | inr (t, e) ↦
          chosen t answer_neutral (rw (a, b, e, select_base_text) at h)
            (bind_text s.answer_neutral t e)
      | inl c ↦ elim (Option-cases (s.last_model_response >>= none_if_empty)) [
        | inr (t, e) ↦
            chosen t last_model_response (rw (a, b, c, e, select_base_text) at h)
              (bind_text s.last_model_response t e)
        | inl d ↦ cc (rw (a, b, c, d, select_base_text) at h)
      ]
    ]
  ]
]
  where
    chosen :
        (t : String) (f : AnswerField)
        → ◌≡◌ {A = Option (String × AnswerField)} (some (t, f)) (some (base, into))
        → text_in f s ≡ some t
        → text_in into s ≡ some base
    chosen t f same there =
        let e = some-injective same in
        subst (λ (p : String × AnswerField). text_in p.1 s ≡ some p.0) e there

module _ ⦃py : Builtins⦄ where
  -- There is nothing to offer: no answer, or no command of the step that gives the user a link for it.
  abbrev pub HasNoOffer : Diagrams → StepDef → State → Type 0
  HasNoOffer diagrams step s =
      (select_base_text s ≡ none)
      ⊎ ((base : String) × (into : AnswerField) × (select_base_text s ≡ some (base, into))
          × All (λ kind. offer diagrams base s kind ≡ none) (extract_command_types step))

  -- The action `add_command_action` never raises and chooses no next step. Either there is no answer or no command
  -- to offer for it, and it changes nothing, or it puts
  -- behind the answer, in the field where that stood, the links of at least one command, each the link that the
  -- command builds for the answer and each of a command that the user of the run may run; it records the types
  -- of exactly these commands, and changes no other field.
  pub add_command-IsPermitted :
      (diagrams : Diagrams) (step : StepDef) (s : State)
      → ((add_command diagrams step s).0 ≡ ok null)
        × ((((add_command diagrams step s).1 ≡ s) × HasNoOffer diagrams step s)
            ⊎ Shows diagrams s (add_command diagrams step s).1)
  unfolding add_command
  add_command-IsPermitted diagrams step s = elim (Option-cases (select_base_text s)) [
    | inl no_answer ↦ rw (no_answer, add_command) (refl, inl (refl, inl refl))
    | inr ((base, into), found) ↦
        let kinds = extract_command_types step in
        let offered = offers-IsOffered diagrams base s kinds in
        elim (List-cases (offers diagrams base s kinds)) [
          | inl empty ↦
              rw (found, empty, add_command)
                (refl, inl (refl, inr (base, into, refl, offers-none diagrams base s kinds empty)))
          | inr (o, os, made) ↦
              let shown : String = with_links diagrams base (o ∷ os) in
              let now : State = record s { commands_applied = types_of (o ∷ os) } in
              rw (found, made, add_command)
                (
                  refl,
                  inr (record {
                    base = base;
                    into = into;
                    first = o;
                    rest = os;
                    answered = select_base_text-text_in s base into found;
                    offered = subst (All (IsOffered diagrams base s)) made offered;
                    recorded = recorded_by into shown now;
                    shown = text_in-write_back into shown now;
                    others =
                        λ f ne. other_texts f into shown now ne ∙ unrecorded f (types_of (o ∷ os));
                    only = refl;
                  }),
                )
        ]
  ]
    where
      unrecorded :
          (f : AnswerField) (types : List String)
          → text_in f (record s { commands_applied = types }) ≡ text_in f s
      unrecorded final_answer types = refl
      unrecorded answer_translated types = refl
      unrecorded answer_neutral types = refl
      unrecorded last_model_response types = refl
