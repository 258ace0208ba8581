-- ===== src/World.antt =====
-- What the agent does to its host, as explicit state. The Docker daemon, the host's commands, TCP
-- and the clock are not part of the repository: they are the fields of `World`, which may answer
-- each call by everything that was asked before. Nothing is assumed of the answers.
use routestack_agent.Base.{
  ℕ, Text, Unicode, Bool, List, ◌∷◌, ◌++◌, Option, ◌≡◌, ◌⊎◌, inl, inr, refl,
}
use routestack_agent.Json.{Json}

-- A Go value of type (T, error); an error is its message.
pub data Result {ℓ} (A : Type ℓ) : Type ℓ where
  ok : A → Result A
  err : Text → Result A

pub Result-cases {ℓ} :
    {A : Type ℓ} (r : Result A) → ((a : A) × (r ≡ ok a)) ⊎ ((e : Text) × (r ≡ err e))
Result-cases (ok a) = inl (a, refl)
Result-cases (err e) = inr (e, refl)

pub record HttpRequest : Type 0 where
  pub method : Text
  pub path : Text
  pub body : Option Json

-- The whole of a response: what a reader of its body gets, and whether reading it ends in an error.
pub record HttpResponse : Type 0 where
  pub status : ℕ
  pub body : Text
  pub read_error : Option Text

pub data Call : Type 0 where
  http : HttpRequest → Call
  command : Text → List Text → Call
  dial : Text → ℕ → Call

-- The calls made so far, the last one first.
abbrev pub History : Type 0
History = List Call

-- What a command printed, and the error of running it or of its exit status.
pub record CommandResult : Type 0 where
  pub output : Text
  pub failure : Option Text

pub record World : Type 0 where
  pub respond : History → HttpRequest → Result HttpResponse
  pub execute : History → Text → List Text → CommandResult
  pub accepts : History → Text → ℕ → Bool
  -- encoding/json: the value that a text spells, the text of a value, the message of a type error
  pub parse : Text → Result Json
  -- json.NewDecoder(r).Decode: the first value of a text, whatever follows it
  pub parse_first : Text → Result Json
  pub print : Json → Text
  pub type_error : Text
  -- time.Now(), in seconds
  pub now : History → ℕ
  pub unicode : Unicode

-- A function that takes a context and returns (A, error).
abbrev pub M : Type 0 → Type 0
M A = History → Result A × History

infixl 5 ◌>>=◌ ◌>>◌
abbrev pub ◌>>=◌ : {A B : Type 0} → M A → (A → M B) → M B
◌>>=◌ m f h = let (r, h') = m h in elim r [ ok a ↦ f a h' | err e ↦ (err e, h') ]

abbrev pub ◌>>◌ : {A B : Type 0} → M A → M B → M B
m >> k = m >>= λ _. k

abbrev pub pure : {A : Type 0} → A → M A
pure a h = (ok a, h)

abbrev pub fail : {A : Type 0} → Text → M A
fail e h = (err e, h)

abbrev pub lift : {A : Type 0} → Result A → M A
lift r h = (r, h)

-- `x, err := m`, with both at hand.
abbrev pub attempt : {A : Type 0} → M A → M (Result A)
attempt m h = let (r, h') = m h in (ok r, h')

abbrev pub in_context : {A : Type 0} → Text → Result A → Result A
in_context prefix (ok a) = ok a
in_context prefix (err e) = err (prefix ++ e)

-- if err != nil { return fmt.Errorf("prefix%w", err) }
abbrev pub wrap : {A : Type 0} → Text → M A → M A
wrap prefix m h = let (r, h') = m h in (in_context prefix r, h')

module _ (W : World) where
  unfoldable pub send : HttpRequest → M HttpResponse
  send q h = (W.respond h q, http q ∷ h)

  unfoldable pub run_command : Text → List Text → M CommandResult
  run_command name args h = (ok (W.execute h name args), command name args ∷ h)

  unfoldable pub connects : Text → ℕ → M Bool
  connects address timeout h = (ok (W.accepts h address timeout), dial address timeout ∷ h)
