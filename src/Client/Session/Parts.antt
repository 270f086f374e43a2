-- ===== src/Client/Session/Parts.antt =====
-- The data of `InferenceSession` in src/subnet/client/inference_session.py, and the expressions on
-- lists of its methods.
use subnet_llm_template.Prelude.{
  ℕ, ◌+◌, ◌-◌, Bool, true, false, ◌||◌, Option, none, some, List, [], ◌∷◌, ◌++◌, length, take, drop,
  min, ◌==◌, leb, if◌then◌else◌,
}
use subnet_llm_template.Exec.{Exec, pure, raise}
use subnet_llm_template.Client.Connection.{Span, ServerSession}

-- `max_retries` is that of the configuration.
pub record Session : Type 0 where
  pub num_blocks : ℕ
  pub max_length : ℕ
  pub max_retries : Option ℕ
  pub position : ℕ
  pub closed : Bool
  pub server_sessions : List ServerSession

pub record Client (World : Type 0) : Type 0 where
  pub session : Session
  pub world : World

-- `__init__`
abbrev pub init : ℕ → ℕ → Option ℕ → Session
init num_blocks max_length max_retries = record {
  num_blocks = num_blocks;
  max_length = max_length;
  max_retries = max_retries;
  position = 0;
  closed = false;
  server_sessions = [];
}

abbrev pub is_empty : List ServerSession → Bool
is_empty [] = true
is_empty (_ ∷ _) = false

-- `xs[start : end]`
abbrev pub slice : ℕ → ℕ → List ℕ → List ℕ
slice start end xs = drop start (take end xs)

-- `xs[:, -n:]`, which is all of `xs` for `n = 0`.
abbrev pub last_tokens : ℕ → List ℕ → List ℕ
last_tokens n xs = if n == 0 then xs else drop (length xs - n) xs

-- `updated_spans[-1].end = min(updated_spans[-1].end, update_end)`, which raises on no spans.
abbrev pub clip_last : ℕ → Span → List Span → List Span
clip_last update_end span [] = record span { end = min span.end update_end } ∷ []
clip_last update_end span (next ∷ spans) = span ∷ clip_last update_end next spans

abbrev pub clip : {S : Type 0} → ℕ → List Span → Exec S (List Span)
clip update_end [] = raise
clip update_end (span ∷ spans) = pure (clip_last update_end span spans)

-- The end of the blocks for which servers are looked for.
abbrev pub update_end : ℕ → Option ServerSession → ℕ
update_end num_blocks none = num_blocks
update_end num_blocks (some s) = s.span.end

-- The first new session takes over the history of the one that it replaces.
abbrev pub inherit : Option ServerSession → List ServerSession → List ServerSession
inherit none sessions = sessions
inherit (some old) [] = []
inherit (some old) (s ∷ sessions) = record s { history = old.history } ∷ sessions

-- `xs[i : i + 1] = new`
abbrev pub replace : ℕ → List ServerSession → List ServerSession → List ServerSession
replace i new xs = take i xs ++ new ++ drop (i + 1) xs

-- Whether the exception of an attempt ends the step. Comparing the number of attempts with a
-- `max_retries` of `None` raises too.
abbrev pub gives_up : Option ℕ → Option ℕ → ℕ → Bool
gives_up configured none attempt_no = true
gives_up none (some max_retries) attempt_no = leb max_retries (attempt_no + 1)
gives_up (some n) (some max_retries) attempt_no =
    attempt_no + 1 == n || leb max_retries (attempt_no + 1)
