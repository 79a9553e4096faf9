-- ===== src/Errors.antt =====
-- The exceptions that the gateway raises or passes on.
use secure_gpu_inference_gat.Prelude.{String}

pub data Exception : Type 0 where
  value_error runtime_error authentication_error backend_adapter_error key_error type_error
        os_error :
      String → Exception
  unicode_encode_error overflow_error assertion_error zero_division_error : Exception
