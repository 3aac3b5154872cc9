-- ===== src/Urls.antt =====
-- `urllib.parse`: what the program calls of it, as parameters of the model. `urlsplit`, `urljoin` and
-- `.port` raise ValueError on some texts, which nothing in the program catches before the whole
-- operation has ended. A function of the model that calls them has its value where they return; the
-- function of the same name with `_raises` behind it says where the function in the code raises, and
-- the operations that return a result or an exception ask it first.
use second_eye.Prelude.{ℕ, Bool, Option, List}
use second_eye.Prelude.Text.{Text}
use second_eye.Prelude.Dict.{Dict}

pub record SplitResult : Type 0 where
  pub scheme : Text
  pub path : Text
  pub query : Text
  pub hostname : Option Text
  pub port : Option ℕ

pub record Urls : Type 0 where
  -- the values, where these return
  pub urlsplit : Text → SplitResult
  pub urljoin : Text → Text → Text
  -- where they raise, and where `.port` of the split text does
  pub split_raises : Text → Bool
  pub join_raises : Text → Text → Bool
  pub port_raises : Text → Bool
  pub parse_qs : Text → Dict Text (List Text)
