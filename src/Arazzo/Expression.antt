-- ===== src/Arazzo/Expression.antt =====
-- arazzo/expression/expression.go: the kinds of runtime expression, expressions and tokens.
pub mod Parser
pub mod Grammar
pub mod Embedded
mod Tests
use libopenapi.Prelude.{Bytes, ℕ, Bool, [], false}

-- The order of the constructors is that of the Go constants.
pub data ExpressionType : Type 0 where
  url method status_code : ExpressionType
  request_header request_query request_path request_body : ExpressionType
  response_header response_query response_path response_body : ExpressionType
  inputs outputs steps workflows source_descriptions : ExpressionType
  components component_parameters : ExpressionType

pub record Expression : Type 0 where
  pub type : ExpressionType
  pub raw : Bytes
  pub name : Bytes
  pub tail : Bytes
  pub property : Bytes
  pub json_pointer : Bytes

-- `Expression{}`, with Go's zero values.
abbrev pub zero_expression : Expression
zero_expression = record {
  type = ExpressionType.url;
  raw = [];
  name = [];
  tail = [];
  property = [];
  json_pointer = [];
}

pub record Token : Type 0 where
  pub literal : Bytes
  pub expression : Expression
  pub is_expression : Bool

-- One constructor for each message of the parser, with the values it prints. `out_of_fuel` is no
-- error of the program: it marks a loop of the model that was given too few rounds.
pub data ParseError : Type 0 where
  empty_expression : ParseError
  bad_start : Bytes → ParseError
  incomplete_expression : Bytes → ParseError
  unknown_expression : Bytes → ParseError
  unknown_prefix : Bytes → ParseError
  incomplete_source : Bytes → ParseError
  unknown_source : Bytes → ParseError
  empty_name : Bytes → ParseError
  empty_header_name : Bytes → ParseError
  empty_query_name : Bytes → ParseError
  empty_path_name : Bytes → ParseError
  empty_parameter_name : Bytes → ParseError
  invalid_header_byte : Bytes → ℕ → ParseError
  unclosed_brace : ℕ → ParseError
  invalid_embedded : ℕ → ParseError → ParseError
  out_of_fuel : ParseError
