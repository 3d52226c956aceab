-- ===== src/Web/Sensors.antt =====
-- application/src/web/sensors.rs, and the shared readings of application/src/sensors.rs. `F` is `f32`.

pub record SensorData (F : Type 0) : Type 0 where
  pub temperature_c : F
  pub voltage_v : F
  pub current_total_a : F
  pub power_w : F

pub record SensorsResponse (F : Type 0) : Type 0 where
  pub temperature_c : F
  pub voltage_v : F
  pub current_total_a : F
  pub power_w : F

pub handle_sensors : {F : Type 0} → SensorData F → SensorsResponse F
handle_sensors data_now = record {
  temperature_c = data_now.temperature_c;
  voltage_v = data_now.voltage_v;
  current_total_a = data_now.current_total_a;
  power_w = data_now.power_w;
}
