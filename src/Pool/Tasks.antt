-- ===== src/Pool/Tasks.antt =====
-- Reconnect tasks of pool.rs and the connections that they are about to store.
use snowpack.Prelude.{◌++◌, List, [], ◌∷◌}
use snowpack.Pool.{ReconnectTask, trying, sleeping, storing}

module _ {Conn : Type 0} where
  -- What is about to be stored has the property.
  abbrev pub Stores : (Conn → Type 0) → ReconnectTask Conn → Type 0
  Stores P (trying b) = Unit {0}
  Stores P (sleeping b) = Unit {0}
  Stores P (storing c) = P c

  abbrev pub AllStore : (Conn → Type 0) → List (ReconnectTask Conn) → Type 0
  AllStore P [] = Unit {0}
  AllStore P (t ∷ ts) = Stores P t × AllStore P ts

module _ {Conn : Type 0} (P : Conn → Type 0) where
  pub AllStore-task :
      (before after : List (ReconnectTask Conn)) (t : ReconnectTask Conn)
      → AllStore P (before ++ t ∷ after)
      → Stores P t
  AllStore-task [] after t h = h.0
  AllStore-task (u ∷ before) after t h = AllStore-task before after t h.1

  pub AllStore-removed :
      (before after : List (ReconnectTask Conn)) (t : ReconnectTask Conn)
      → AllStore P (before ++ t ∷ after)
      → AllStore P (before ++ after)
  AllStore-removed [] after t h = h.1
  AllStore-removed (u ∷ before) after t h = (h.0, AllStore-removed before after t h.1)

  pub AllStore-replaced :
      (before after : List (ReconnectTask Conn)) (t t' : ReconnectTask Conn)
      → Stores P t'
      → AllStore P (before ++ t ∷ after)
      → AllStore P (before ++ t' ∷ after)
  AllStore-replaced [] after t t' one h = (one, h.1)
  AllStore-replaced (u ∷ before) after t t' one h =
      (h.0, AllStore-replaced before after t t' one h.1)

module _ {Conn : Type 0} (P Q : Conn → Type 0) (f : (c : Conn) → P c → Q c) where
  Stores-map : (t : ReconnectTask Conn) → Stores P t → Stores Q t
  Stores-map (trying b) h = tt
  Stores-map (sleeping b) h = tt
  Stores-map (storing c) h = f c h

  pub AllStore-map : (ts : List (ReconnectTask Conn)) → AllStore P ts → AllStore Q ts
  AllStore-map [] h = tt
  AllStore-map (t ∷ ts) h = (Stores-map t h.0, AllStore-map ts h.1)
