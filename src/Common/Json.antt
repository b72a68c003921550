-- ===== src/Common/Json.antt =====
-- The values of JSON dicts, as the program reads them.
use mathlib.Core.Bool.{Bool}
use binance_futures_algo_bot.Common.Texts.{Text}

-- A value of a dict: `None`, a text, a number with the text that `str` gives it, a Boolean, or a list
-- or dict with whether it has elements.
pub data Json (F : Type 0) : Type 0 where
  null : Json F
  text : Text → Json F
  number : F → Text → Json F
  flag : Bool → Json F
  nested : Bool → Text → Json F
