-- ===== src/Iota/Tests.antt =====
-- The interceptor at concrete requests, and its theorems where their hypotheses hold.
use iotacaddy.Prelude.{true, false, none, some, [], ◌∷◌, refl, Text, codes, text_eq, if◌then◌else◌}
use iotacaddy.Lexer.Defs.{Token}
use iotacaddy.Lexer.Words.{token_at}
use iotacaddy.Iota.Int.{pos, less}
use iotacaddy.Iota.Defs.{
  AttachToTangleReq, Library, Request, Config, answer, attach, dispatch, all_transactions,
  serve_http, post,
}
use iotacaddy.Iota.Guards.{Answers, serve_http-Answers}

-- One call, in the body "c"; every text is a transaction, and proof of work adds a nonce.
abbrev call : AttachToTangleReq
call = record {
  command = codes "attachToTangle";
  trunk_tx_hash = codes "T";
  branch_tx_hash = codes "B";
  mwm = pos 9;
  trytes = codes "X" ∷ [];
}

abbrev library : Library
library = record {
  unmarshal = λ s. if text_eq s (codes "c") then some call else none;
  marshal = λ r. some (codes "done");
  is_transaction = λ t. true;
  do_pow = λ t b ts m. some (codes "X9" ∷ []);
}

abbrev config : Config
config = record { max_mwm = pos 14; max_tx_in_bundle = pos 20 }

abbrev posted : Text → Request
posted s = record { method = post; body = some (record { unread = s; broken = false }) }

serve_http-Answers_example : Answers library config 0 0 (posted (codes "c")) (codes "done")
serve_http-Answers_example =
    serve_http-Answers library config 0 0 true (posted (codes "c")) (codes "done")
      (unfold serve_http dispatch attach answer all_transactions text_eq less in refl)

abbrev fetched : Request
fetched = record { method = codes "GET"; body = none }

abbrev iota : Token
iota = token_at 1 (codes "iota")

abbrev seven : Token
seven = token_at 1 (codes "7")

abbrev word : Token
word = token_at 1 (codes "x")
