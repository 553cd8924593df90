-- ===== src/Daemon/Errors.antt =====
-- src/error.rs. A message is the list of its pieces: the text of a format string, and what stands in
-- its holes.
use macos_wireguard_daemon.Prelude.{Bool, List, ◌∷◌, Text, text}

pub data Piece : Type 0 where
  plain : Text → Piece
  quoted : Text → Piece

abbrev pub Message : Type 0
Message = List Piece

-- `io` tells whether the error is of the kind `WouldBlock`.
pub data AppError : Type 0 where
  json : Message → AppError
  io : Bool → Message → AppError
  auth : Message → AppError
  auth_required : Message → AppError
  wireguard : Message → AppError
  busy : Message → AppError
  not_found : Message → AppError
  other : Message → AppError

-- `to_string()`
abbrev pub display : AppError → Message
display (json m) = plain (text "JSON error: ") ∷ m
display (io _ m) = plain (text "IO error: ") ∷ m
display (auth m) = plain (text "Authentication failed: ") ∷ m
display (auth_required m) = plain (text "Admin authentication required: ") ∷ m
display (wireguard m) = plain (text "WireGuard error: ") ∷ m
display (busy m) = m
display (not_found m) = m
display (other m) = m
