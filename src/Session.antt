-- ===== src/Session.antt =====
-- The auth manager (auth/manager.go) and the connection (connection/connection.go) as `NewSocket` of
-- socket.go wires them: the connection listens to `AuthTokenExpired`, and `Emit` makes the call of
-- `Connect` before it returns. What emits that event takes the call as `again`.
pub mod Tokens
pub mod Authenticate
pub mod Calls
pub mod Loops
pub mod Short
pub mod Replies
pub mod Agrees
pub mod Bounded
pub mod Returns
use qpub_go.Prelude.{Option}
use qpub_go.Auth.Types.{Manager}
use qpub_go.Connection.Types.{Conn}

-- A call returns, or panics, or has not returned after so many nested calls.
pub data Ran (A : Type 0) : Type 0 where
  returns : A → Ran A
  panics runs_on : Ran A

abbrev pub pure : {A : Type 0} → A → Ran A
pure a = returns a

infixl 5 ◌>>=◌
abbrev pub ◌>>=◌ : {A B : Type 0} → Ran A → (A → Ran B) → Ran B
returns a >>= f = f a
panics >>= f = panics
runs_on >>= f = runs_on

-- The states of both; the state `S` is what the auth manager's calls work on, and `C` is that of the
-- channel manager.
abbrev pub Client : Type 0 → Type 0 → Type 0
Client S C = Conn (Manager S) C

abbrev pub on_auth : {S C : Type 0} → (Manager S → Manager S) → Client S C → Client S C
on_auth f c = record c { auth = f c.auth }
